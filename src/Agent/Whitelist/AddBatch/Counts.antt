-- ===== src/Agent/Whitelist/AddBatch/Counts.antt =====
-- The counts of the whitelist combos in AddWhitelistBatch of node/agent/api/whitelist.go: counted up
-- for the batch, and taken back.
use std.Path.{fun_ext}
use mathlib.Core.List.{List, [], ◌∷◌}
use Prim.Native.Nat.{ℕ}
use xdrop.Prelude.{Option, some, none, ◌≡◌, refl, ap, ◌∙◌, arith}
use xdrop.Prelude.Int.{ℤ, pos, negsuc, ◌+ℤ◌}
use xdrop.Agent.Types.{RuleKey}
use xdrop.Agent.Combo.{get_combo_type}
use xdrop.Agent.Store.{count_combo}
use xdrop.Agent.State.{Handlers, Bpf}
use xdrop.Agent.Whitelist.{count_old, count_whitelist, undo_whitelist}
use xdrop.Agent.Whitelist.Invariant.{View, wl_view, restore_whitelist-view}
use xdrop.Agent.Whitelist.AddBatch.{Change, count_changes, undo_changes}

-- the combo of a key, if there is one
abbrev pub count_key : Option RuleKey → ℤ → (ℕ → ℤ) → ℕ → ℤ
count_key none delta refs = refs
count_key (some key) delta refs = count_combo (get_combo_type key) delta refs

-- the counts of one change, of all, and back
abbrev pub count_up : Change → (ℕ → ℤ) → ℕ → ℤ
count_up c refs = count_key (some c.key) (pos 1) (count_key c.old_key (negsuc 0) refs)

abbrev pub count_down : Change → (ℕ → ℤ) → ℕ → ℤ
count_down c refs = count_key c.old_key (pos 1) (count_key (some c.key) (negsuc 0) refs)

abbrev pub all_up : List Change → (ℕ → ℤ) → ℕ → ℤ
all_up [] refs = refs
all_up (c ∷ cs) refs = all_up cs (count_up c refs)

abbrev pub all_down : List Change → (ℕ → ℤ) → ℕ → ℤ
all_down [] refs = refs
all_down (c ∷ cs) refs = all_down cs (count_down c refs)

add_swap : (x a b : ℤ) → x +ℤ a +ℤ b ≡ x +ℤ b +ℤ a
unfolding ◌+ℤ◌
add_swap (pos x) (pos a) (pos b) = ground arith
add_swap (pos x) (pos a) (negsuc b) = ground arith
add_swap (pos x) (negsuc a) (pos b) = ground arith
add_swap (pos x) (negsuc a) (negsuc b) = ground arith
add_swap (negsuc x) (pos a) (pos b) = ground arith
add_swap (negsuc x) (pos a) (negsuc b) = ground arith
add_swap (negsuc x) (negsuc a) (pos b) = ground arith
add_swap (negsuc x) (negsuc a) (negsuc b) = ground arith

count_combo_swap :
    (k l a b : ℤ) (refs : ℕ → ℤ) (c : ℕ)
    → count_combo k a (count_combo l b refs) c ≡ count_combo l b (count_combo k a refs) c
unfolding count_combo
count_combo_swap (pos k) (pos l) a b refs c = ground (arith, add_swap (refs c) a b)
count_combo_swap (pos k) (negsuc l) a b refs c = refl
count_combo_swap (negsuc k) (pos l) a b refs c = refl
count_combo_swap (negsuc k) (negsuc l) a b refs c = refl

count_swap :
    (k l : Option RuleKey) (a b : ℤ) (refs : ℕ → ℤ)
    → count_key k a (count_key l b refs) ≡ count_key l b (count_key k a refs)
count_swap none none a b refs = refl
count_swap none (some l) a b refs = refl
count_swap (some k) none a b refs = refl
count_swap (some k) (some l) a b refs =
    fun_ext (count_combo_swap (get_combo_type k) (get_combo_type l) a b refs)

back_combo :
    (k : ℤ) (refs : ℕ → ℤ) (c : ℕ)
    → count_combo k (negsuc 0) (count_combo k (pos 1) refs) c ≡ refs c
unfolding count_combo ◌+ℤ◌
back_combo (pos n) refs c = ground arith
back_combo (negsuc n) refs c = refl

count_back :
    (k : Option RuleKey) (refs : ℕ → ℤ) → count_key k (negsuc 0) (count_key k (pos 1) refs) ≡ refs
count_back none refs = refl
count_back (some k) refs = fun_ext (back_combo (get_combo_type k) refs)

count_down_up : (c : Change) (refs : ℕ → ℤ) → count_down c (count_up c refs) ≡ refs
count_down_up c refs =
    ap (count_key c.old_key (pos 1)) (count_back (some c.key) (count_key c.old_key (negsuc 0) refs))
    ∙ count_swap c.old_key c.old_key (pos 1) (negsuc 0) refs
    ∙ count_back c.old_key refs

-- two counts and two others, in either order
count_swap_pair :
    (k l m n : Option RuleKey) (a b c d : ℤ) (refs : ℕ → ℤ)
    → count_key k a (count_key l b (count_key m c (count_key n d refs)))
      ≡ count_key m c (count_key n d (count_key k a (count_key l b refs)))
count_swap_pair k l m n a b c d refs =
    ap (count_key k a) (count_swap l m b c (count_key n d refs))
    ∙ count_swap k m a c (count_key l b (count_key n d refs))
    ∙ ap (λ x. count_key m c (count_key k a x)) (count_swap l n b d refs)
    ∙ ap (count_key m c) (count_swap k n a d (count_key l b refs))

count_down-all_up :
    (c : Change) (cs : List Change) (refs : ℕ → ℤ)
    → count_down c (all_up cs refs) ≡ all_up cs (count_down c refs)
count_down-all_up c [] refs = refl
count_down-all_up c (d ∷ cs) refs =
    count_down-all_up c cs (count_up d refs)
    ∙ ap (all_up cs) (
        count_swap_pair c.old_key (some c.key) (some d.key) d.old_key (pos 1) (negsuc 0) (pos 1)
          (negsuc 0) refs)

-- the counts of a batch that is taken back, in the order in which it was counted
pub all_down-all_up : (cs : List Change) (refs : ℕ → ℤ) → all_down cs (all_up cs refs) ≡ refs
all_down-all_up [] refs = refl
all_down-all_up (c ∷ cs) refs =
    ap (all_down cs)
      (count_down-all_up c cs (count_up c refs) ∙ ap (all_up cs) (count_down_up c refs))
    ∙ all_down-all_up cs refs

module _ {M C T : Type 0} where
  count_old-view :
      (old : Option RuleKey) (delta : ℤ) (h : Handlers M C T) (v : View)
      → wl_view h ≡ v
      → wl_view (count_old old delta h) ≡ (v.0, v.1, count_key old delta v.2)
  unfolding count_whitelist count_old
  count_old-view none delta h v same = same
  count_old-view (some old) delta h v same =
      ap (λ w. (w.0, w.1, count_combo (get_combo_type old) delta w.2)) same

  pub count_changes-view :
      (cs : List Change) (h : Handlers M C T) (v : View)
      → wl_view h ≡ v
      → wl_view (count_changes cs h) ≡ (v.0, v.1, all_up cs v.2)
  unfolding count_changes count_old
  count_changes-view [] h v same = same
  count_changes-view (c ∷ cs) h v same =
      let lower = count_old-view c.old_key (negsuc 0) h v same in
      let counted =
        count_old-view (some c.key) (pos 1) (count_old c.old_key (negsuc 0) h) _ lower in
      count_changes-view cs (count_whitelist c.key (pos 1) (count_old c.old_key (negsuc 0) h)) _
        counted

module _ {M C T : Type 0} (bpf : Bpf M C T) where
  pub undo_changes-view :
      (cs : List Change) (h : Handlers M C T) (v : View)
      → wl_view h ≡ v
      → wl_view (undo_changes bpf cs h) ≡ (v.0, v.1, all_down cs v.2)
  unfolding undo_changes undo_whitelist count_old
  undo_changes-view [] h v same = same
  undo_changes-view (c ∷ cs) h v same =
      let g = count_whitelist c.key (negsuc 0) h in
      let lower = count_old-view (some c.key) (negsuc 0) h v same in
      let counted = count_old-view c.old_key (pos 1) g _ lower in
      let back = restore_whitelist-view bpf c.old_key (count_old c.old_key (pos 1) g) in
      undo_changes-view cs (undo_whitelist bpf c.old_key c.key h) _ (back ∙ counted)
