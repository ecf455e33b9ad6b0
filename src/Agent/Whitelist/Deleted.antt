-- ===== src/Agent/Whitelist/Deleted.antt =====
-- The invariant of the whitelist under DeleteWhitelist of node/agent/api/whitelist.go.
use xdrop.Prelude.GoMap.{lookup, delete, lookup-delete}
use xdrop.Prelude.Int.{pos, negsuc}
use xdrop.Prelude.Text.{string_eq}
use xdrop.Agent.Types.{RuleKey, rule_key_eq}
use xdrop.Agent.Combo.{get_combo_type}
use xdrop.Agent.Store.{count_combo}
use xdrop.Agent.Store.Invariant.{put_new, remove}
use xdrop.Agent.State.{Handlers, Bpf}
use xdrop.Agent.Config.{active_whitelist, set_active_whitelist, publish_config_update}
use xdrop.Agent.Whitelist.{
  Bool, Option, String, restore_whitelist, some, count_whitelist, false, rule_key_to_bytes,
  delete_whitelist, take_whitelist, delete_entry, put_whitelist, publish_delete, true,
}
use xdrop.Prelude.{◌≡◌, ◌∙◌, arith, refl, none, ap, Bool-cases, inl, inr}
use xdrop.Agent.Whitelist.Invariant.{
  View, IsConsistent, wl_view, set_active_whitelist-view, IsWhitelist, of_view, publish-view,
  restore_whitelist-view,
}

module _ {M C T : Type 0} (id : String) (key : RuleKey) (h : Handlers M C T) where
  pub taken-entry : lookup id (take_whitelist id key h).wl_entries ≡ none
  unfolding take_whitelist count_whitelist
  taken-entry = ground (arith, lookup-delete id id h.wl_entries, string_eq.beq_iff id id)

  pub taken-key : lookup key (take_whitelist id key h).wl_key_index ≡ none
  unfolding take_whitelist count_whitelist
  taken-key = ground (arith, lookup-delete key key h.wl_key_index, rule_key_eq.beq_iff key key)

module _ {M C T : Type 0} (bpf : Bpf M C T) where
  pub take_whitelist-IsConsistent :
      (id : String) (key : RuleKey) (h : Handlers M C T) (v : View)
      → IsConsistent v
      → lookup id v.0 ≡ some key
      → wl_view h ≡ v
      → IsWhitelist (take_whitelist id key h)
  unfolding take_whitelist count_whitelist
  take_whitelist-IsConsistent id key h v st found same =
      of_view (take_whitelist id key h) _
        (ap (λ w. (delete id w.0, delete key w.1, count_combo (get_combo_type key) (negsuc 0) w.2))
          same)
        (remove _ _ v.0 v.1 v.2 st id key found)

  pub put_back-IsWhitelist :
      (id : String) (key : RuleKey) (h : Handlers M C T)
      → IsWhitelist h
      → lookup id h.wl_entries ≡ none
      → lookup key h.wl_key_index ≡ none
      → IsWhitelist (put_whitelist id key h)
  unfolding put_whitelist count_whitelist
  put_back-IsWhitelist id key h st fresh free =
      put_new _ _ h.wl_entries h.wl_key_index h.wl_combo_ref_count st id key fresh free

  publish_delete-IsWhitelist :
      (id : String) (key : RuleKey) (p : Handlers M C T × Bool)
      → IsWhitelist p.0
      → lookup id p.0.wl_entries ≡ none
      → lookup key p.0.wl_key_index ≡ none
      → IsWhitelist (publish_delete bpf id key p).0
  unfolding publish_delete
  publish_delete-IsWhitelist id key (h, true) st fresh free = st
  publish_delete-IsWhitelist id key (h, false) st fresh free =
      of_view (restore_whitelist bpf (some key) (put_whitelist id key h)) _
        (restore_whitelist-view bpf (some key) (put_whitelist id key h))
        (put_back-IsWhitelist id key h st fresh free)

  delete_entry-IsWhitelist :
      (id : String) (found : Option RuleKey) (h : Handlers M C T)
      → IsWhitelist h
      → lookup id h.wl_entries ≡ found
      → IsWhitelist (delete_entry bpf id found h).0
  unfolding delete_entry
  delete_entry-IsWhitelist id none h st found = st
  delete_entry-IsWhitelist id (some key) h st found =
      let deleted = bpf.maps.delete (active_whitelist h) (rule_key_to_bytes key) in
      let h' = set_active_whitelist deleted.0 h in
      let same = set_active_whitelist-view deleted.0 h in
      let taken = take_whitelist id key h' in
      let p = publish_config_update bpf taken (pos 0) (negsuc 0) (pos 0) in
      let view = publish-view bpf taken (pos 0) (negsuc 0) (pos 0) in
      elim (Bool-cases deleted.1) [
        | inl done ↦ rw done (
            publish_delete-IsWhitelist id key p
              (of_view p.0 _ view (take_whitelist-IsConsistent id key h' (wl_view h) st found same))
              (ap (λ w. lookup id w.0) view ∙ taken-entry id key h')
              (ap (λ w. lookup key w.1) view ∙ taken-key id key h'))
        | inr failed ↦ rw failed (of_view h' (wl_view h) same st)
      ]

  -- If the whitelist is consistent (each entry is indexed by its key, the index names nothing else,
  -- and each combo has the count of its entries), it is consistent after DeleteWhitelist, also where
  -- the entry is put back because the publication fails.
  pub delete_whitelist-IsWhitelist :
      (h : Handlers M C T) (id : String) → IsWhitelist h → IsWhitelist (delete_whitelist bpf id h).0
  unfolding delete_whitelist
  delete_whitelist-IsWhitelist h id st =
      delete_entry-IsWhitelist id (lookup id h.wl_entries) h st refl
