-- ===== src/Agent/Config/Publish.antt =====
-- What publishConfigUpdate of node/agent/api/config.go makes visible, where it succeeds and where it
-- fails.
use mathlib.Core.Option.{or_else}
use xdrop.Prelude.{
  Bool-cases, inl, inr, nat_eq, if◌then◌else◌, ◌≡◌, ◌==◌, ltb, ◌∙◌, false, ap, refl, arith, none,
  zero, ◌<◌, ◌≢◌, ◌-◌, ◌≤◌, ◌+◌,
}
use xdrop.Ebpf.{MapOps, MapLaws, update_exist}
use xdrop.Prelude.Int.{ℤ, pos, ltb_ℤ, ◌+ℤ◌, pos_part}
use xdrop.Agent.Types
use xdrop.Agent.State.{Handlers, Bpf}
use xdrop.Agent.Config.{
  is_zero, value_or_zero, ◌▸◌, combo_bitmap, count_anomaly_rules_in, set_entry, copy_entry,
  copy_entries, add_count, active_map, shadow_map, set_shadow, fill_shadow, switch_active,
  publish_config_update, Option, ℕ, Bool, some, true, suc,
}

-- an entry with a change of a count: unchanged if the change is 0, and never below 0
pub counted : ℤ → Option ℕ → Option ℕ
unfolding is_zero value_or_zero ◌+ℤ◌
counted delta old =
    if is_zero delta then old else some (pos_part (pos (value_or_zero old) +ℤ delta))

-- one entry changed
unfoldable pub overwrite : ℕ → ℕ → (ℕ → Option ℕ) → ℕ → Option ℕ
overwrite i x v j = if i == j then some x else v j

pub recount : ℕ → ℤ → (ℕ → Option ℕ) → ℕ → Option ℕ
recount i delta v j = if i == j then counted delta (v j) else v j

module _ {C : Type 0} (configs : MapOps C ℕ ℕ) where
  -- if the writes succeeded, the map reads as `v`
  abbrev pub Reads : C × Bool → (ℕ → Option ℕ) → Type 0
  Reads r v = r.1 ≡ true → (j : ℕ) → configs.lookup r.0 j ≡ v j

pub or_else_some : (o p : Option ℕ) → o ≢ none → or_else o p ≡ o
unfolding or_else
or_else_some none p h = absurd (h refl)
or_else_some (some x) p h = refl

clamp : (a : ℤ) → pos_part (if ltb_ℤ a (pos 0) then pos 0 else a) ≡ pos_part a
clamp a = ground arith

module _ {C : Type 0} (configs : MapOps C ℕ ℕ) (laws : MapLaws configs) where
  pub then_set :
      (r : C × Bool) (v : ℕ → Option ℕ) (i x : ℕ)
      → Reads configs r v
      → Reads configs (r ▸ set_entry configs i x) (overwrite i x v)
  unfolding set_entry overwrite
  then_set (c, true) v i x h done j =
      laws.update_done c update_exist i x j done ∙ ap (λ o. if i == j then some x else o) (h refl j)
  then_set (c, false) v i x h done j = cc

  add_count-set :
      (c : C) (i : ℕ) (delta : ℤ) (old : Option ℕ)
      → is_zero delta ≡ false
      → configs.lookup c i ≡ old
      → add_count configs i delta c
        ≡ set_entry configs i (pos_part (pos (value_or_zero old) +ℤ delta)) c
  unfolding add_count
  add_count-set c i delta old nz same = rw (nz, same, clamp (pos (value_or_zero old) +ℤ delta))

  counted-some :
      (delta : ℤ) (old : Option ℕ)
      → is_zero delta ≡ false
      → counted delta old ≡ some (pos_part (pos (value_or_zero old) +ℤ delta))
  unfolding counted
  counted-some delta old nz = rw nz

  -- the write of a changed count
  add_set :
      (c : C) (v : ℕ → Option ℕ) (i : ℕ) (delta : ℤ)
      → Reads configs (c, true) v
      → is_zero delta ≡ false
      → Reads configs ((c, true) ▸ add_count configs i delta) (recount i delta v)
  unfolding recount overwrite
  add_set c v i delta h nz done j =
      let x = pos_part (pos (value_or_zero (v i)) +ℤ delta) in
      let same : add_count configs i delta c ≡ set_entry configs i x c =
        add_count-set c i delta (v i) nz (h refl i) in
      let written : (set_entry configs i x c).1 ≡ true = cc in
      let here : configs.lookup (add_count configs i delta c).0 j
          ≡ (if i == j then some x else v j) =
        rw same (then_set (c, true) v i x h written j) in
      ground (arith, here, counted-some delta (v i) nz)

  then_add :
      (r : C × Bool) (v : ℕ → Option ℕ) (i : ℕ) (delta : ℤ)
      → Reads configs r v
      → Reads configs (r ▸ add_count configs i delta) (recount i delta v)
  unfolding add_count counted recount
  then_add (c, false) v i delta h done j = cc
  then_add (c, true) v i delta h done j = elim (Bool-cases (is_zero delta)) [
    | inl z ↦ ground (arith, h refl j)
    | inr nz ↦ add_set c v i delta h nz done j
  ]

  then_copy :
      (r : C × Bool) (v : ℕ → Option ℕ) (i : ℕ) (o : Option ℕ)
      → Reads configs r v
      → Reads configs (r ▸ copy_entry configs o i) (λ j. if i == j then or_else o (v j) else v j)
  unfolding copy_entry or_else overwrite
  then_copy (c, false) v i o h done j = cc
  then_copy (c, true) v i none h done j = ground (arith, h refl j)
  then_copy (c, true) v i (some x) h done j = then_set (c, true) v i x h done j

  pub copied :
      (active shadow : C) (n : ℕ)
      → Reads configs (copy_entries configs active n shadow) (λ j.
        if ltb j n
        then or_else (configs.lookup active j) (configs.lookup shadow j)
        else configs.lookup shadow j)
  unfolding copy_entries
  copied active shadow zero done j = ground arith
  copied active shadow (suc n) done j = ground (
    arith,
    then_copy (copy_entries configs active n shadow)
        (λ j.
          if ltb j n
          then or_else (configs.lookup active j) (configs.lookup shadow j)
          else configs.lookup shadow j)
        n (configs.lookup active n) (copied active shadow n) done j,
  )

-- the configuration that a publication is to make visible, from the active one
pub published : {M C T : Type 0} → Handlers M C T → ℤ → ℤ → ℤ → (ℕ → Option ℕ) → ℕ → Option ℕ
published h count_delta wl_count_delta cidr_count_delta old j =
    if j == Types.config_blacklist_count
    then counted count_delta (old j)
    else if j == Types.config_whitelist_count
    then counted wl_count_delta (old j)
    else if j == Types.config_rule_bitmap
    then some (combo_bitmap h.combo_ref_count)
    else if j == Types.config_wl_bitmap
    then some (combo_bitmap h.wl_combo_ref_count)
    else if j == Types.config_cidr_rule_count
    then counted cidr_count_delta (old j)
    else if j == Types.config_cidr_bitmap
    then some (combo_bitmap h.cidr_combo_ref_count)
    else if j == Types.config_wl_map_selector
    then some h.active_wl_slot
    else if j == Types.config_anomaly_rule_count
    then some (count_anomaly_rules_in h.rules h.cidr_rules)
    else old j

-- the writes of a publication, in the order of the code
layers : {M C T : Type 0} → Handlers M C T → ℤ → ℤ → ℤ → (ℕ → Option ℕ) → ℕ → Option ℕ
layers h d wl cidr v = overwrite 10 (count_anomaly_rules_in h.rules h.cidr_rules) (
    recount 6 cidr (
      overwrite 7 (combo_bitmap h.cidr_combo_ref_count) (
        recount 1 wl (
          recount 0 d (
            overwrite 8 h.active_wl_slot (
              overwrite 3 (combo_bitmap h.wl_combo_ref_count)
                (overwrite 2 (combo_bitmap h.combo_ref_count) v)))))))

layers-published :
    {M C T : Type 0} (h : Handlers M C T) (d wl cidr : ℤ) (v old : ℕ → Option ℕ) (j : ℕ)
    → v j ≡ old j
    → layers h d wl cidr v j ≡ published h d wl cidr old j
unfolding layers published overwrite recount
layers-published h d wl cidr v old j same = ground arith

module _ {M C T : Type 0} (bpf : Bpf M C T) (laws : MapLaws bpf.configs) where
  open bpf use {configs}

  filled_reads :
      (h : Handlers M C T) (d wl cidr : ℤ)
      → ((j : ℕ) → j < Types.config_map_entries → configs.lookup (active_map h) j ≢ none)
      → (fill_shadow bpf h d wl cidr).1 ≡ true
      → (j : ℕ) → j < Types.config_map_entries
      → configs.lookup (fill_shadow bpf h d wl cidr).0 j
        ≡ published h d wl cidr (configs.lookup (active_map h)) j
  unfolding fill_shadow layers
  filled_reads h d wl cidr full done j small =
      let base : or_else (configs.lookup (active_map h) j) (configs.lookup (shadow_map h) j)
          ≡ configs.lookup (active_map h) j =
        or_else_some _ _ (full j small) in
      let reads : configs.lookup (fill_shadow bpf h d wl cidr).0 j
          ≡ layers h d wl cidr
              (λ j.
                if ltb j 12
                then or_else (configs.lookup (active_map h) j) (configs.lookup (shadow_map h) j)
                else configs.lookup (shadow_map h) j)
              j =
        (then_set configs laws _ _ 10 (count_anomaly_rules_in h.rules h.cidr_rules)
          (then_add configs laws _ _ 6 cidr (
            then_set configs laws _ _ 7 (combo_bitmap h.cidr_combo_ref_count) (
              then_add configs laws _ _ 1 wl (
                then_add configs laws _ _ 0 d (
                  then_set configs laws _ _ 8 h.active_wl_slot (
                    then_set configs laws _ _ 3 (combo_bitmap h.wl_combo_ref_count) (
                      then_set configs laws _ _ 2 (combo_bitmap h.combo_ref_count)
                        (copied configs laws (active_map h) (shadow_map h) 12))))))))
          done j) in
      reads ∙ layers-published h d wl cidr _ _ j (ground (arith, base))

  pub switched :
      (h : Handlers M C T) (filled : C × Bool)
      → h.active_slot ≤ 1
      → (switch_active bpf h filled).1 ≡ true
      → (filled.1 ≡ true)
        × ((switch_active bpf h filled).0.active_slot + h.active_slot ≡ 1)
        × (active_map (switch_active bpf h filled).0 ≡ filled.0)
        × (shadow_map (switch_active bpf h filled).0 ≡ active_map h)
        × (configs.lookup (switch_active bpf h filled).0.active_config 0
            ≡ some (switch_active bpf h filled).0.active_slot)
  unfolding switch_active set_shadow active_map shadow_map set_entry
  switched h filled slot done =
      ground (arith, laws.update_done h.active_config update_exist 0 (1 - h.active_slot) 0)

  -- If a publication succeeds, the selector names the other map, that map reads at each index as
  -- the old configuration with all the changes, and the map that was active is unchanged. This
  -- needs a selector of 0 or 1 and an active map in which every index can be read.
  pub publish_config_update_done :
      (h : Handlers M C T) (d wl cidr : ℤ)
      → h.active_slot ≤ 1
      → ((j : ℕ) → j < Types.config_map_entries → configs.lookup (active_map h) j ≢ none)
      → (publish_config_update bpf h d wl cidr).1 ≡ true
      → ((publish_config_update bpf h d wl cidr).0.active_slot + h.active_slot ≡ 1)
        × (configs.lookup (publish_config_update bpf h d wl cidr).0.active_config 0
            ≡ some (publish_config_update bpf h d wl cidr).0.active_slot)
        × ((j : ℕ)
            → j < Types.config_map_entries
            → configs.lookup (active_map (publish_config_update bpf h d wl cidr).0) j
              ≡ published h d wl cidr (configs.lookup (active_map h)) j)
        × (shadow_map (publish_config_update bpf h d wl cidr).0 ≡ active_map h)
  unfolding publish_config_update
  publish_config_update_done h d wl cidr slot full done =
      let s = switched h (fill_shadow bpf h d wl cidr) slot done in
      (s.1, s.4, (λ j small. rw s.2 (filled_reads h d wl cidr full s.0 j small)), s.3)

  switch_failed :
      (h : Handlers M C T) (filled : C × Bool)
      → (switch_active bpf h filled).1 ≡ false
      → ((switch_active bpf h filled).0.active_slot ≡ h.active_slot)
        × (active_map (switch_active bpf h filled).0 ≡ active_map h)
        × ((j : ℕ)
            → configs.lookup (switch_active bpf h filled).0.active_config j
              ≡ configs.lookup h.active_config j)
  unfolding switch_active set_shadow active_map set_entry
  switch_failed h filled failed = (
    ground arith,
    ground arith,
    λ j. ground (arith, laws.update_failed h.active_config update_exist 0 (1 - h.active_slot) j),
  )

  -- If a publication fails, at whichever write, the selector, the map that it names and the
  -- selector's own map read as before.
  pub publish_config_update_failed :
      (h : Handlers M C T) (d wl cidr : ℤ)
      → (publish_config_update bpf h d wl cidr).1 ≡ false
      → ((publish_config_update bpf h d wl cidr).0.active_slot ≡ h.active_slot)
        × (active_map (publish_config_update bpf h d wl cidr).0 ≡ active_map h)
        × ((j : ℕ)
            → configs.lookup (publish_config_update bpf h d wl cidr).0.active_config j
              ≡ configs.lookup h.active_config j)
  unfolding publish_config_update
  publish_config_update_failed h d wl cidr failed =
      switch_failed h (fill_shadow bpf h d wl cidr) failed
