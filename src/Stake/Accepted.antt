-- ===== src/Stake/Accepted.antt =====
-- The snapshots of the unspent outputs, under the checks of the proposer draw.
use mathlib.Core.List.{
  Mem, Pairwise, forall_mem-cons, not-mem-nil, rel_of_Pairwise-cons, mem-cons_self, mem-cons_of_mem,
}
use junctiongenerator.Base.{
  ℕ, ◌+◌, ◌*◌, ◌≤◌, ◌≡◌, refl, sym, ap, ◌∙◌, inl, inr, true, false, Option, none, some, List, [],
  ◌∷◌, ◌++◌, map, arith, ◌==◌, Bool-cases, if◌then◌else◌, length,
}
use junctiongenerator.Base.Hex.{to_hex, from_hex, AllBytes, length-to_hex}
use junctiongenerator.Base.Texts.{Bytes, Text, text_eq, text_eq_iff}
use junctiongenerator.Base.Maps.{TextMap, lookup, insert, HasDistinctKeys, insert-HasDistinctKeys}
use junctiongenerator.Base.Sorting.{sort_by, sort_by-perm}
use junctiongenerator.Canonical.{max_safe_integer}
use junctiongenerator.Types.{OutPoint}
use junctiongenerator.Proposer.{ValidatorBond, by_id, is_empty, is_hash}
use junctiongenerator.Proposer.Roster.{
  IsBond, IsRoster, IsSnapshot, IsRoster-tail, Differ, Differ-prop,
}
use junctiongenerator.Proposer.Order.{IsRoster-perm}
use junctiongenerator.Spending.{UtxoSet, decimal}
use junctiongenerator.Spending.Bonds.{
  BondScript, utf8, take, drop, parse_bond_tail, parse_bond_bytes, parse_validator_bond_script,
}
use junctiongenerator.Spending.Bonds.RoundTrip.{all_hex-to_hex}
use junctiongenerator.Stake.{
  bond_or_new, grow, add_bond, collect_bonds, sort_outpoints, values, bonded_roster, outpoint_of,
  validator_stake_snapshot, roster_bytes, snapshot_tag,
}

is_empty-of_length :
    (t : Text) (n : ℕ) → (length t == n) ≡ true → (n == 0) ≡ false → is_empty t ≡ false
is_empty-of_length [] n h k = ground arith
is_empty-of_length (c ∷ t) n h k = refl

parse_bond_tail-named :
    (bytes : Bytes) (b : BondScript)
    → parse_bond_tail bytes ≡ some b
    → is_empty b.validator_id ≡ false
unfolding parse_bond_tail
parse_bond_tail-named [] b h = cc
parse_bond_tail-named (x ∷ []) b h = cc
parse_bond_tail-named (x ∷ y ∷ rest) b h =
    let named = is_empty-of_length (utf8 (take (x * 256 + y) rest)) (x * 256 + y) in ground arith

parse_validator_bond_script-named :
    (script : Text) (b : BondScript)
    → parse_validator_bond_script script ≡ some b
    → is_empty b.validator_id ≡ false
unfolding parse_validator_bond_script parse_bond_bytes
parse_validator_bond_script-named script b h =
    let named = parse_bond_tail-named (drop 8 (from_hex script)) b in ground arith

-- The bond stands under its own id, which is not empty, and its stake is not negative.
abbrev IsOwn : Text → ValidatorBond → Type 0
IsOwn k b = (b.validator_id ≡ k) × IsBond b

abbrev AllOwn : TextMap ValidatorBond → Type 0
AllOwn [] = Unit
AllOwn ((k, b) ∷ m) = IsOwn k b × AllOwn m

insert-AllOwn :
    (k : Text) (b : ValidatorBond) (m : TextMap ValidatorBond)
    → IsOwn k b
    → AllOwn m
    → AllOwn (insert k b m)
unfolding insert
insert-AllOwn k b [] h a = (h, tt)
insert-AllOwn k b ((j, c) ∷ m) h (own, rest) = elim (Bool-cases (text_eq j k)) [
  | inl same ↦ let e = (text_eq_iff j k).0 same in rw same ((h.0 ∙ sym e, h.1), rest)
  | inr other ↦ rw other (own, insert-AllOwn k b m h rest)
]

lookup-IsOwn :
    (k : Text) (b : ValidatorBond) (m : TextMap ValidatorBond)
    → AllOwn m
    → lookup k m ≡ some b
    → b.validator_id ≡ k
unfolding lookup
lookup-IsOwn k b [] a h = cc
lookup-IsOwn k b ((j, c) ∷ m) (own, rest) h = elim (Bool-cases (text_eq j k)) [
  | inl same ↦
      let e = (text_eq_iff j k).0 same in
      let found : Path (Option ValidatorBond) (some c) (some b) =
        ap (λ t. if t then some c else lookup k m) (sym same) ∙ h in
      sym (ap id_of found) ∙ own.0 ∙ e
  | inr other ↦ lookup-IsOwn k b m rest (ap (λ t. if t then some c else lookup k m) (sym other) ∙ h)
]
  where
    id_of : Option ValidatorBond → Text
    id_of none = []
    id_of (some b) = b.validator_id

add_bond-AllOwn :
    (o : OutPoint) (value : ℕ) (script : Text) (m : TextMap ValidatorBond)
    → AllOwn m
    → AllOwn (add_bond o value (parse_validator_bond_script script) m)
add_bond-AllOwn o value script m a = add (parse_validator_bond_script script) refl
  where
    add :
        (p : Option BondScript)
        → parse_validator_bond_script script ≡ p
        → AllOwn (add_bond o value p m)
    add none e = a
    add (some parsed) e =
        let named = parse_validator_bond_script-named script parsed e in
        insert-AllOwn parsed.validator_id
          (grow o value (bond_or_new parsed.validator_id (lookup parsed.validator_id m))) m
          (own (lookup parsed.validator_id m) refl named) a
      where
        own :
            (f : Option ValidatorBond)
            → lookup parsed.validator_id m ≡ f
            → is_empty parsed.validator_id ≡ false
            → IsOwn parsed.validator_id (grow o value (bond_or_new parsed.validator_id f))
        own none e' n = (refl, (n, refl))
        own (some b) e' n =
            let same = lookup-IsOwn parsed.validator_id b m a e' in
            (same, (ap is_empty same ∙ n, refl))

add_bond-HasDistinctKeys :
    (o : OutPoint) (value : ℕ) (p : Option BondScript) (m : TextMap ValidatorBond)
    → HasDistinctKeys m
    → HasDistinctKeys (add_bond o value p m)
add_bond-HasDistinctKeys o value none m h = h
add_bond-HasDistinctKeys o value (some parsed) m h =
    insert-HasDistinctKeys parsed.validator_id
      (grow o value (bond_or_new parsed.validator_id (lookup parsed.validator_id m))) m h

collect_bonds-AllOwn :
    (utxos : UtxoSet) (m : TextMap ValidatorBond)
    → AllOwn m
    → HasDistinctKeys m
    → AllOwn (collect_bonds utxos m) × HasDistinctKeys (collect_bonds utxos m)
unfolding collect_bonds
collect_bonds-AllOwn [] m a h = (a, h)
collect_bonds-AllOwn ((k, entry) ∷ utxos) m a h =
    let o = outpoint_of k in
    let p = parse_validator_bond_script entry.script_pub_key in
    collect_bonds-AllOwn utxos (add_bond o entry.value p m)
      (add_bond-AllOwn o entry.value entry.script_pub_key m a)
      (add_bond-HasDistinctKeys o entry.value p m h)

IsBond-prop : (b : ValidatorBond) → IsProp (IsBond b)
IsBond-prop b = hlevel

-- An id that is not a key is the id of none of the bonds.
values-Differ :
    (c : ValidatorBond) (m : TextMap ValidatorBond)
    → AllOwn m
    → lookup c.validator_id m ≡ none
    → (b : ValidatorBond) → Mem b (values m)
    → Differ c b
unfolding lookup
values-Differ c [] a h = λ b mem. absurd (not-mem-nil mem)
values-Differ c ((k, d) ∷ m) (own, rest) h =
    (forall_mem-cons (Differ-prop c)).1 (differ, values-Differ c m rest absent)
  where
    other : text_eq k c.validator_id ≡ false
    other = ground arith

    absent : lookup c.validator_id m ≡ none
    absent = ground arith

    differ : Differ c d
    differ =
        rw (own.0)
          (ground (arith, other, text_eq_iff k c.validator_id, text_eq_iff c.validator_id k))

values-IsRoster : (m : TextMap ValidatorBond) → AllOwn m → HasDistinctKeys m → IsRoster (values m)
values-IsRoster [] a h = record {
  bonds = λ b mem. absurd (not-mem-nil mem);
  distinct = Pairwise.nil;
}
values-IsRoster ((k, b) ∷ m) (own, rest) (fresh, h) =
    let roster = values-IsRoster m rest h in
    record {
      bonds = (forall_mem-cons IsBond-prop).1 (own.1, roster.bonds);
      distinct =
          Pairwise.cons (values-Differ b m rest (ap (λ i. lookup i m) own.0 ∙ fresh))
            roster.distinct;
    }

sort_outpoints-Differ :
    (c : ValidatorBond) (l : List ValidatorBond)
    → ((b : ValidatorBond) → Mem b l → Differ c b)
    → (b : ValidatorBond) → Mem b (map sort_outpoints l)
    → Differ c b
sort_outpoints-Differ c [] h = λ b mem. absurd (not-mem-nil mem)
sort_outpoints-Differ c (d ∷ l) h =
    (forall_mem-cons (Differ-prop c)).1
      (h d mem-cons_self, sort_outpoints-Differ c l (λ b mem. h b (mem-cons_of_mem d mem)))

sort_outpoints-IsRoster : (l : List ValidatorBond) → IsRoster l → IsRoster (map sort_outpoints l)
sort_outpoints-IsRoster [] r = record {
  bonds = λ b mem. absurd (not-mem-nil mem);
  distinct = Pairwise.nil;
}
sort_outpoints-IsRoster (b ∷ l) r =
    let rest = sort_outpoints-IsRoster l (IsRoster-tail b l r) in
    record {
      bonds = (forall_mem-cons IsBond-prop).1 (r.bonds b mem-cons_self, rest.bonds);
      distinct =
          Pairwise.cons (sort_outpoints-Differ b l (λ c mem. rel_of_Pairwise-cons r.distinct mem))
            rest.distinct;
    }

bonded_roster-IsRoster : (utxos : UtxoSet) → IsRoster (bonded_roster utxos)
unfolding bonded_roster
bonded_roster-IsRoster utxos =
    let collected = collect_bonds-AllOwn utxos [] tt tt in
    let listed = values (collect_bonds utxos []) in
    sort_outpoints-IsRoster (sort_by by_id listed) (
      IsRoster-perm (sort_by-perm by_id listed)
        (values-IsRoster (collect_bonds utxos []) collected.0 collected.1))

-- For SHA3-256 with digests of 32 bytes, and a height that is a safe integer: the snapshot of any
-- unspent outputs is one that the proposer draw accepts. Its root is a hash of 64 hexadecimal
-- digits, each bond has an id that is not empty and a stake that is not negative, and no two bonds
-- have the same id.
pub validator_stake_snapshot-IsSnapshot :
    (sha3_256 : Bytes → Bytes)
    → ((bs : Bytes) → (length (sha3_256 bs) ≡ 32) × AllBytes (sha3_256 bs))
    → (utxos : UtxoSet) (height : ℕ) → height ≤ max_safe_integer
    → IsSnapshot (validator_stake_snapshot sha3_256 utxos height)
unfolding validator_stake_snapshot is_hash
validator_stake_snapshot-IsSnapshot sha3_256 digest utxos height safe =
    (root, safe, bonded_roster-IsRoster utxos)
  where
    preimage : Bytes
    preimage = snapshot_tag ++ (decimal height ++ roster_bytes (bonded_roster utxos))

    root : is_hash (to_hex (sha3_256 preimage)) ≡ true
    root =
        let size = length-to_hex (sha3_256 preimage) in
        let hex = all_hex-to_hex (sha3_256 preimage) (digest preimage).1 in
        let bytes = (digest preimage).0 in rw (size, bytes) hex
