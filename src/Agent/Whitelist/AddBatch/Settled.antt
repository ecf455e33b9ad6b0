-- ===== src/Agent/Whitelist/AddBatch/Settled.antt =====
-- The ways in which AddWhitelistBatch of node/agent/api/whitelist.go ends once its checks have passed.
use mathlib.Core.List.{List, [], ◌∷◌, ◌++◌}
use xdrop.Prelude.{
  Bool, Option, some, none, true, false, if◌then◌else◌, length, ◌≡◌, refl, ap, ◌∙◌, Bool-cases, inl,
  inr, ◌⊎◌,
}
use xdrop.Prelude.Int.{pos, ◌-ℤ◌}
use xdrop.Ebpf.{update_no_exist}
use xdrop.Agent.Types.{RuleKey}
use xdrop.Agent.Wire.{rule_key_to_bytes}
use xdrop.Agent.State.{Handlers, Bpf}
use xdrop.Agent.Config.{active_whitelist, set_active_whitelist, publish_config_update}
use xdrop.Agent.Whitelist.{wl_value, restore_whitelist}
use xdrop.Agent.Whitelist.Invariant.{
  View, wl_view, set_active_whitelist-view, publish-view, restore_whitelist-view,
}
use xdrop.Agent.Whitelist.AddBatch.{
  Change, BatchAnswer, bpf_failed, added_entries, net_new_entries, commit_changes, count_changes,
  delete_old, restore_olds, delete_olds, undo_changes, delete_inserted, take_back, insert_entries,
  settle_inserted, insert_published, publish_changes,
}
use xdrop.Agent.Whitelist.AddBatch.Counts.{
  all_up, all_down-all_up, count_changes-view, undo_changes-view,
}

-- the whitelist while the batch is counted, but not yet remembered
abbrev pub counted : List Change → View → View
counted cs v = (v.0, v.1, all_up cs v.2)

-- Either the batch failed and the whitelist is as it was, or all of it is remembered.
abbrev pub IsSettled : {M C T : Type 0} → View → List Change → Handlers M C T × BatchAnswer → Type 0
IsSettled {M} {C} {T} v cs p =
    ((p.1 ≡ bpf_failed) × (wl_view p.0 ≡ v))
    ⊎ ((g : Handlers M C T) × (wl_view g ≡ counted cs v)
        × (p ≡ (commit_changes cs g, added_entries (length cs))))

module _ {M C T : Type 0} (bpf : Bpf M C T) where
  open bpf use {maps}

  restore_olds-view :
      (cs : List Change) (h : Handlers M C T) → wl_view (restore_olds bpf cs h) ≡ wl_view h
  unfolding restore_olds
  restore_olds-view [] h = refl
  restore_olds-view (c ∷ cs) h =
      restore_olds-view cs (restore_whitelist bpf c.old_key h)
      ∙ restore_whitelist-view bpf c.old_key h

  delete_old-view :
      (old : Option RuleKey) (h : Handlers M C T) → wl_view (delete_old bpf old h).0 ≡ wl_view h
  unfolding delete_old
  delete_old-view none h = refl
  delete_old-view (some old) h = set_active_whitelist-view _ h

  delete_olds-view :
      (done cs : List Change) (h : Handlers M C T)
      → wl_view (delete_olds bpf done cs h).0 ≡ wl_view h
  unfolding delete_olds
  delete_olds-view done [] h = refl
  delete_olds-view done (c ∷ cs) h =
      let deleted = delete_old bpf c.old_key h in
      let same = delete_old-view c.old_key h in
      elim (Bool-cases deleted.1) [
        | inl ok ↦ rw ok (delete_olds-view (done ++ (c ∷ [])) cs deleted.0 ∙ same)
        | inr stop ↦ rw stop (restore_olds-view done deleted.0 ∙ same)
      ]

  delete_inserted-view :
      (cs : List Change) (h : Handlers M C T) → wl_view (delete_inserted bpf cs h) ≡ wl_view h
  unfolding delete_inserted
  delete_inserted-view [] h = refl
  delete_inserted-view (c ∷ cs) h = delete_inserted-view cs _ ∙ set_active_whitelist-view _ h

  undo_changes-back :
      (cs : List Change) (h : Handlers M C T) (v : View)
      → wl_view h ≡ counted cs v
      → wl_view (undo_changes bpf cs h) ≡ v
  undo_changes-back cs h v same =
      undo_changes-view bpf cs h (counted cs v) same
      ∙ ap (λ r. (v.0, v.1, r)) (all_down-all_up cs v.2)

  take_back-view :
      (cs inserted : List Change) (h : Handlers M C T) (v : View)
      → wl_view h ≡ counted cs v
      → wl_view (take_back bpf cs inserted h) ≡ v
  unfolding take_back
  take_back-view cs inserted h v same =
      let g = delete_inserted bpf inserted h in
      publish-view bpf (undo_changes bpf cs g) (pos 0) (pos 0 -ℤ pos (net_new_entries cs)) (pos 0)
      ∙ undo_changes-back cs g v (delete_inserted-view inserted h ∙ same)

  insert_entries-view :
      (all inserted cs : List Change) (h : Handlers M C T) (v : View)
      → wl_view h ≡ counted all v
      → wl_view (insert_entries bpf all inserted cs h).0
        ≡ (if (insert_entries bpf all inserted cs h).1 then counted all v else v)
  unfolding insert_entries
  insert_entries-view all inserted [] h v same = same
  insert_entries-view all inserted (c ∷ cs) h v same =
      let written =
        maps.update (active_whitelist h) update_no_exist (rule_key_to_bytes c.key) wl_value in
      let h' = set_active_whitelist written.0 h in
      let same' : wl_view h' ≡ counted all v = set_active_whitelist-view written.0 h ∙ same in
      elim (Bool-cases written.1) [
        | inl ok ↦ rw ok (insert_entries-view all (inserted ++ (c ∷ [])) cs h' v same')
        | inr stop ↦ rw stop (take_back-view all inserted h' v same')
      ]

  settle_inserted-IsSettled :
      (cs : List Change) (p : Handlers M C T × Bool) (v : View)
      → wl_view p.0 ≡ (if p.1 then counted cs v else v)
      → IsSettled v cs (settle_inserted bpf cs p)
  unfolding settle_inserted
  settle_inserted-IsSettled cs (h, true) v same = inr (h, same, refl)
  settle_inserted-IsSettled cs (h, false) v same = inl (refl, same)

  insert_published-IsSettled :
      (cs : List Change) (p : Handlers M C T × Bool) (v : View)
      → wl_view p.0 ≡ counted cs v
      → IsSettled v cs (insert_published bpf cs p)
  unfolding insert_published
  insert_published-IsSettled cs (h, true) v same =
      settle_inserted-IsSettled cs (insert_entries bpf cs [] cs h) v
        (insert_entries-view cs [] cs h v same)
  insert_published-IsSettled cs (h, false) v same = inl (refl, undo_changes-back cs h v same)

  publish_changes-IsSettled :
      (cs : List Change) (p : Handlers M C T × Bool) (v : View)
      → wl_view p.0 ≡ v
      → IsSettled v cs (publish_changes bpf cs p)
  unfolding publish_changes
  publish_changes-IsSettled cs (h, true) v same =
      let g = count_changes cs h in
      insert_published-IsSettled cs
        (publish_config_update bpf g (pos 0) (pos (net_new_entries cs)) (pos 0)) v
        (publish-view bpf g (pos 0) (pos (net_new_entries cs)) (pos 0)
          ∙ count_changes-view cs h v same)
  publish_changes-IsSettled cs (h, false) v same = inl (refl, same)

  pub all_phases-IsSettled :
      (cs : List Change) (h : Handlers M C T)
      → IsSettled (wl_view h) cs (publish_changes bpf cs (delete_olds bpf [] cs h))
  all_phases-IsSettled cs h =
      publish_changes-IsSettled cs (delete_olds bpf [] cs h) (wl_view h) (delete_olds-view [] cs h)
