-- ===== src/Cidr/Manager/Entries.antt =====
-- The trie entry of a CIDR, and what a write or a delete does to the entries of all CIDRs.
use xdrop.Ebpf.{MapOps, MapLaws, update_any}
use xdrop.Cidr.Manager.{
  LpmKey, make_key, write_trie, delete_trie, ℕ, Bool, Text, Option, some, false, put_entry,
  delete_entry, true, text_eq,
}
use xdrop.Cidr.Manager.Normal.{IsNormal, make_key-injective, normal-has_key}
use xdrop.Prelude.{Eq, ℕ_discrete, Discrete-Eq, ◌≡◌, none, if◌then◌else◌, refl, arith, ap}

unfoldable pub LpmKey-discrete : Discrete LpmKey
LpmKey-discrete = hlevel ℕ_discrete

instance abbrev pub lpm_key_eq : Eq LpmKey
lpm_key_eq = Discrete-Eq LpmKey-discrete

module _ {T : Type 0} (ops : MapOps T LpmKey ℕ) where
  at_key : T → Option LpmKey → Option ℕ
  at_key trie none = none
  at_key trie (some k) = ops.lookup trie k

  -- the number that the trie has for a CIDR
  unfoldable pub trie_at : Bool → T → Text → Option ℕ
  unfolding at_key
  trie_at is_v6 trie c = at_key trie (make_key is_v6 c)

-- the test on keys agrees with the test on the CIDRs in normal form
keys_agree :
    (is_v6 : Bool) (c d : Text) (k j : LpmKey)
    → IsNormal is_v6 c
    → IsNormal is_v6 d
    → make_key is_v6 c ≡ some k
    → make_key is_v6 d ≡ some j
    → lpm_key_eq.beq k j ≡ text_eq.beq c d
keys_agree is_v6 c d k j n m p q = ground (
  arith,
  lpm_key_eq.beq_iff k j,
  text_eq.beq_iff c d,
  make_key-injective is_v6 c d n m,
  ap (make_key is_v6),
  p,
  q,
)

module _ {T : Type 0} (ops : MapOps T LpmKey ℕ) (laws : MapLaws ops) (trie : T) where
  put_entry_failed :
      (id : ℕ) (a b : Option LpmKey)
      → (put_entry ops trie id a).1 ≡ false
      → at_key ops (put_entry ops trie id a).0 b ≡ at_key ops trie b
  unfolding put_entry at_key
  put_entry_failed id none b h = refl
  put_entry_failed id (some k) none h = refl
  put_entry_failed id (some k) (some j) h = laws.update_failed trie update_any k id j h

  delete_entry_failed :
      (a b : Option LpmKey)
      → (delete_entry ops trie a).1 ≡ false
      → at_key ops (delete_entry ops trie a).0 b ≡ at_key ops trie b
  unfolding delete_entry at_key
  delete_entry_failed none b h = refl
  delete_entry_failed (some k) none h = refl
  delete_entry_failed (some k) (some j) h = laws.delete_failed trie k j h

  module _ (is_v6 : Bool) (c d : Text) (n : IsNormal is_v6 c) (m : IsNormal is_v6 d) where
    put_entry_done :
        (id : ℕ) (a b : Option LpmKey)
        → make_key is_v6 c ≡ a
        → make_key is_v6 d ≡ b
        → (put_entry ops trie id a).1 ≡ true
        → at_key ops (put_entry ops trie id a).0 b
          ≡ (if text_eq.beq c d then some id else at_key ops trie b)
    unfolding put_entry at_key
    put_entry_done id none b p q h = cc
    put_entry_done id (some k) none p q h = absurd (normal-has_key is_v6 d m q)
    put_entry_done id (some k) (some j) p q h =
        rw (← keys_agree is_v6 c d k j n m p q) (laws.update_done trie update_any k id j h)

    delete_entry_done :
        (a b : Option LpmKey)
        → make_key is_v6 c ≡ a
        → make_key is_v6 d ≡ b
        → (delete_entry ops trie a).1 ≡ true
        → at_key ops (delete_entry ops trie a).0 b
          ≡ (if text_eq.beq c d then none else at_key ops trie b)
    unfolding delete_entry at_key
    delete_entry_done none b p q h = cc
    delete_entry_done (some k) none p q h = absurd (normal-has_key is_v6 d m q)
    delete_entry_done (some k) (some j) p q h =
        rw (← keys_agree is_v6 c d k j n m p q) (laws.delete_done trie k j h)

module _ {T : Type 0} (ops : MapOps T LpmKey ℕ) (laws : MapLaws ops) (trie : T) (is_v6 : Bool)
    (c d : Text) where
  pub write_trie_failed :
      (id : ℕ)
      → (write_trie ops trie c id is_v6).1 ≡ false
      → trie_at ops is_v6 (write_trie ops trie c id is_v6).0 d ≡ trie_at ops is_v6 trie d
  unfolding write_trie trie_at
  write_trie_failed id h = put_entry_failed ops laws trie id (make_key is_v6 c) (make_key is_v6 d) h

  pub delete_trie_failed :
      (delete_trie ops trie c is_v6).1 ≡ false
      → trie_at ops is_v6 (delete_trie ops trie c is_v6).0 d ≡ trie_at ops is_v6 trie d
  unfolding delete_trie trie_at
  delete_trie_failed h = delete_entry_failed ops laws trie (make_key is_v6 c) (make_key is_v6 d) h

  pub write_trie_done :
      (id : ℕ)
      → IsNormal is_v6 c
      → IsNormal is_v6 d
      → (write_trie ops trie c id is_v6).1 ≡ true
      → trie_at ops is_v6 (write_trie ops trie c id is_v6).0 d
        ≡ (if text_eq.beq c d then some id else trie_at ops is_v6 trie d)
  unfolding write_trie trie_at
  write_trie_done id n m h =
      put_entry_done ops laws trie is_v6 c d n m id (make_key is_v6 c) (make_key is_v6 d) refl refl
        h

  pub delete_trie_done :
      IsNormal is_v6 c
      → IsNormal is_v6 d
      → (delete_trie ops trie c is_v6).1 ≡ true
      → trie_at ops is_v6 (delete_trie ops trie c is_v6).0 d
        ≡ (if text_eq.beq c d then none else trie_at ops is_v6 trie d)
  unfolding delete_trie trie_at
  delete_trie_done n m h =
      delete_entry_done ops laws trie is_v6 c d n m (make_key is_v6 c) (make_key is_v6 d) refl refl
        h
