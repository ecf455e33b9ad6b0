-- ===== src/Agent/Whitelist/AddBatch/Invariant.antt =====
-- The whitelist under AddWhitelistBatch of node/agent/api/whitelist.go.
use mathlib.Core.List.{List, [], ◌∷◌}
use Prim.Native.Nat.{ℕ}
use Prim.Native.String.{String}
use xdrop.Prelude.{
  Option, some, none, false, length, ◌≡◌, ◌≢◌, refl, sym, ap, subst, arith, inl, inr,
}
use xdrop.Prelude.GoMap.{
  GoMap, lookup, insert, delete, IsUnique, insert-IsUnique, lookup-insert, lookup-delete,
}
use xdrop.Prelude.Text.{string_eq}
use xdrop.Agent.Types.{RuleKey, WhitelistEntry, rule_key_eq}
use xdrop.Agent.Store.Invariant.{put_new, put_old}
use xdrop.Agent.State.{Handlers, Bpf}
use xdrop.Agent.Rules.{is_taken}
use xdrop.Agent.Rules.Invariant.{not_taken-cases}
use xdrop.Agent.Whitelist.{route_whitelist, commit_whitelist}
use xdrop.Agent.Whitelist.Invariant.{View, IsWhitelist, IsConsistent, wl_view, of_view, not_owned}
use xdrop.Agent.Whitelist.AddBatch.{
  Change, BatchAnswer, added_entries, prepare_entries, entry_id, check_batch, commit_changes,
  add_checked, add_prepared, add_whitelist_batch,
}
use xdrop.Agent.Whitelist.AddBatch.Counts.{count_up}
use xdrop.Agent.Whitelist.AddBatch.Settled.{counted, IsSettled, all_phases-IsSettled}
use xdrop.Agent.Whitelist.AddBatch.Ready.{AllApart, AllReady, check_batch-AllReady}

-- the index without an old key
free_old : Option RuleKey → GoMap RuleKey String → GoMap RuleKey String
free_old none index = index
free_old (some old) index = delete old index

-- the whitelist with a change
changed : Change → View → View
changed c v = (insert c.id c.key v.0, insert c.key c.id (free_old c.old_key v.1), count_up c v.2)

changed-IsConsistent :
    (id : String) (old : Option RuleKey) (key : RuleKey) (v : View)
    → IsConsistent v
    → lookup id v.0 ≡ old
    → is_taken (lookup key v.1) id ≡ false
    → IsConsistent (changed (record { id = id; key = key; old_key = old }) v)
unfolding changed free_old
changed-IsConsistent id none key v st found free =
    put_new _ _ v.0 v.1 v.2 st id key found (not_owned v id key st found free)
changed-IsConsistent id (some old) key v st found free =
    put_old _ _ v.0 v.1 v.2 st id key old found (not_taken-cases (lookup key v.1) id free)

free_old-untaken :
    (old : Option RuleKey) (key : RuleKey) (id : String) (index : GoMap RuleKey String)
    → is_taken (lookup key index) id ≡ false
    → is_taken (lookup key (free_old old index)) id ≡ false
unfolding free_old is_taken
free_old-untaken none key id index free = free
free_old-untaken (some old) key id index free = ground (arith, lookup-delete old key index, free)

changed-AllReady :
    (c : Change) (cs : List Change) (v : View)
    → AllApart c.id c.key cs
    → AllReady v cs
    → AllReady (changed c v) cs
unfolding changed
changed-AllReady c [] v apart ready = tt
changed-AllReady c (d ∷ cs) v apart ready = (
  ground (arith, lookup-insert c.id d.id c.key v.0, apart.0, ready.0),
  rw (lookup-insert c.key d.key c.id (free_old c.old_key v.1), apart.1)
      (free_old-untaken c.old_key d.key d.id v.1 ready.1),
  ready.2,
  changed-AllReady c cs v apart.2 ready.3,
)

module _ {M C T : Type 0} where
  commit_whitelist-view :
      (id : String) (old : Option RuleKey) (key : RuleKey) (h : Handlers M C T) (v : View)
      → wl_view h ≡ v
      → wl_view (commit_whitelist id old key h)
        ≡ (insert id key v.0, insert key id (free_old old v.1), v.2)
  unfolding commit_whitelist free_old
  commit_whitelist-view id none key h v same =
      ap (λ x. (insert id key x.0, insert key id x.1, x.2)) same
  commit_whitelist-view id (some old) key h v same =
      ap (λ x. (insert id key x.0, insert key id (delete old x.1), x.2)) same

  commit_changes-IsWhitelist :
      (cs : List Change) (h : Handlers M C T) (v : View)
      → IsConsistent v
      → AllReady v cs
      → wl_view h ≡ counted cs v
      → IsWhitelist (commit_changes cs h)
  unfolding commit_changes changed
  commit_changes-IsWhitelist [] h v st ready same = of_view h v same st
  commit_changes-IsWhitelist (c ∷ cs) h v st ready same =
      commit_changes-IsWhitelist cs (commit_whitelist c.id c.old_key c.key h) (changed c v)
        (changed-IsConsistent c.id c.old_key c.key v st ready.0 ready.1)
        (changed-AllReady c cs v ready.2 ready.3)
        (commit_whitelist-view c.id c.old_key c.key h (counted (c ∷ cs) v) same)

-- the first entry of a request that is not refused
pub prepare_entries-cons :
    (new_id : String) (entry : WhitelistEntry) (entries : List (String × WhitelistEntry))
    (ps qs : GoMap String RuleKey) (o : Option RuleKey)
    → route_whitelist entry ≡ o
    → prepare_entries ((new_id, entry) ∷ entries) ps ≡ some qs
    → (key : RuleKey) × (o ≡ some key)
      × (prepare_entries entries (insert (entry_id new_id entry) key ps) ≡ some qs)
unfolding prepare_entries
prepare_entries-cons new_id entry entries ps qs none found e =
    (let never : none ≡ some qs = rw (prepare_entries, found) at e in cc)
prepare_entries-cons new_id entry entries ps qs (some key) found e =
    (key, refl, rw (prepare_entries, found) at e)

pub prepare_entries-IsUnique :
    (entries : List (String × WhitelistEntry)) (ps qs : GoMap String RuleKey)
    → IsUnique ps
    → prepare_entries entries ps ≡ some qs
    → IsUnique qs
unfolding prepare_entries
prepare_entries-IsUnique [] ps qs u e = (let same : ps ≡ qs = cc in subst IsUnique same u)
prepare_entries-IsUnique ((new_id, entry) ∷ entries) ps qs u e =
    let s = prepare_entries-cons new_id entry entries ps qs (route_whitelist entry) refl e in
    prepare_entries-IsUnique entries _ qs (insert-IsUnique (entry_id new_id entry) s.0 ps u) s.2

module _ {M C T : Type 0} (bpf : Bpf M C T) where
  settled-IsWhitelist :
      (v : View) (cs : List Change) (p : Handlers M C T × BatchAnswer)
      → IsConsistent v
      → AllReady v cs
      → IsSettled v cs p
      → IsWhitelist p.0
  settled-IsWhitelist v cs p st ready (inl (failed, same)) = of_view p.0 v same st
  settled-IsWhitelist v cs p st ready (inr (g, same, end)) =
      subst (λ x. IsWhitelist x.0) (sym end) (commit_changes-IsWhitelist cs g v st ready same)

  add_checked-IsWhitelist :
      (o : Option (List Change)) (ps : GoMap String RuleKey) (h : Handlers M C T)
      → IsWhitelist h
      → IsUnique ps
      → check_batch ps [] h ≡ o
      → IsWhitelist (add_checked bpf o h).0
  unfolding add_checked
  add_checked-IsWhitelist none ps h st u e = st
  add_checked-IsWhitelist (some cs) ps h st u e =
      settled-IsWhitelist (wl_view h) cs _ st (check_batch-AllReady ps [] h cs u e)
        (all_phases-IsSettled bpf cs h)

  add_prepared-IsWhitelist :
      (o : Option (GoMap String RuleKey)) (h : Handlers M C T)
      → IsWhitelist h
      → ((ps : GoMap String RuleKey) → o ≡ some ps → IsUnique ps)
      → IsWhitelist (add_prepared bpf o h).0
  unfolding add_prepared
  add_prepared-IsWhitelist none h st u = st
  add_prepared-IsWhitelist (some []) h st u = st
  add_prepared-IsWhitelist (some (p ∷ ps)) h st u =
      add_checked-IsWhitelist (check_batch (p ∷ ps) [] h) (p ∷ ps) h st (u (p ∷ ps) refl) refl

  -- If the whitelist is consistent (each entry is indexed by its key, the index names nothing else,
  -- and each combo has the count of its entries), it is consistent after AddWhitelistBatch, whether
  -- the batch is refused, fails in any of its phases or is added.
  pub add_whitelist_batch-IsWhitelist :
      (entries : List (String × WhitelistEntry)) (h : Handlers M C T)
      → IsWhitelist h
      → IsWhitelist (add_whitelist_batch bpf entries h).0
  unfolding add_whitelist_batch
  add_whitelist_batch-IsWhitelist entries h st =
      add_prepared-IsWhitelist (prepare_entries entries []) h st
        (λ ps e. prepare_entries-IsUnique entries [] ps tt e)

  settled-unchanged :
      (v : View) (cs : List Change) (p : Handlers M C T × BatchAnswer)
      → IsSettled v cs p
      → ((n : ℕ) → p.1 ≢ added_entries n)
      → wl_view p.0 ≡ v
  settled-unchanged v cs p (inl (failed, same)) refused = same
  settled-unchanged v cs p (inr (g, same, end)) refused =
      absurd (refused (length cs) (ap (λ x. x.1) end))

  add_checked-unchanged :
      (o : Option (List Change)) (h : Handlers M C T)
      → ((n : ℕ) → (add_checked bpf o h).1 ≢ added_entries n)
      → wl_view (add_checked bpf o h).0 ≡ wl_view h
  unfolding add_checked
  add_checked-unchanged none h refused = refl
  add_checked-unchanged (some cs) h refused =
      settled-unchanged (wl_view h) cs _ (all_phases-IsSettled bpf cs h) refused

  add_prepared-unchanged :
      (o : Option (GoMap String RuleKey)) (h : Handlers M C T)
      → ((n : ℕ) → (add_prepared bpf o h).1 ≢ added_entries n)
      → wl_view (add_prepared bpf o h).0 ≡ wl_view h
  unfolding add_prepared
  add_prepared-unchanged none h refused = refl
  add_prepared-unchanged (some []) h refused = refl
  add_prepared-unchanged (some (p ∷ ps)) h refused =
      add_checked-unchanged (check_batch (p ∷ ps) [] h) h refused

  -- AddWhitelistBatch is all or nothing: unless it answers that entries were added, the remembered
  -- entries, their index and all counts of the combos are what they were before, whichever entry of
  -- the batch was refused and whichever call of the BPF maps failed.
  pub add_whitelist_batch-unchanged :
      (entries : List (String × WhitelistEntry)) (h : Handlers M C T)
      → ((n : ℕ) → (add_whitelist_batch bpf entries h).1 ≢ added_entries n)
      → wl_view (add_whitelist_batch bpf entries h).0 ≡ wl_view h
  unfolding add_whitelist_batch
  add_whitelist_batch-unchanged entries h refused =
      add_prepared-unchanged (prepare_entries entries []) h refused
