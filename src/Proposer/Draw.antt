-- ===== src/Proposer/Draw.antt =====
-- Which bond owns a draw.
use mathlib.Core.List.{Mem, filter, mem-filter, mem-append_right, mem-cons_self, not-mem-nil}
use mathlib.Core.List.Perm
use junctiongenerator.Base.{
  ℕ, suc, ◌%◌, ◌^◌, ◌≤◌, ◌<◌, ◌≡◌, refl, sym, ap, subst, ◌∙◌, true, ◌⊎◌, inl, inr, ◌≢◌, some, none,
  List, [], ◌∷◌, ◌++◌, arith, ltb, Bool-cases, Result, ok, length, ltb→lt, ◌>>=◌,
}
use junctiongenerator.Base.Texts.{Bytes, Text}
use junctiongenerator.Base.Sorting.{sort_by-perm}
use junctiongenerator.Canonical.{max_safe_integer, domain, be_bytes, EncodingError, build}
use junctiongenerator.Canonical.Encoding.{
  u64-Writes, write_string-Writes, then_write-Writes, string_bytes,
}
use junctiongenerator.Proposer.{
  ValidatorBond, ValidatorStakeSnapshot, ProposerError, stake, total_stake, has_stake, by_id,
  schedule, draw_loop, proposer_draw, draw_from, select_block_proposer, is_hash, assert_hash,
  to_lower_case, draw_context, proposer_draw_domain, big_endian, encoded,
}
use junctiongenerator.Proposer.Roster.{IsSnapshot, sorted_positive_validators_ok}
use junctiongenerator.Proposer.Intervals.{Owner, draw_loop_interval, Owner_of_draw}

length-to_lower_case : (t : Text) → length (to_lower_case t) ≡ length t
unfolding to_lower_case
length-to_lower_case [] = refl
length-to_lower_case (c ∷ cs) = ap suc (length-to_lower_case cs)

hash_length : (t : Text) → is_hash t ≡ true → length (to_lower_case t) < 2 ^ 32
unfolding is_hash
hash_length t h =
    let size = length-to_lower_case t in let full : length t ≡ 64 = ground arith in omega arith

-- The bytes that the draw hashes.
abbrev pub draw_bytes : ValidatorStakeSnapshot → Text → ℕ → Bytes
draw_bytes s previous_block_hash height =
    string_bytes proposer_draw_domain
    ++ (((string_bytes (to_lower_case previous_block_hash) ++ be_bytes 8 height)
          ++ string_bytes (to_lower_case s.root))
        ++ be_bytes 8 s.height)

schedule-mem :
    (bonds : List ValidatorBond) (b : ValidatorBond)
    → Mem b (schedule bonds)
    → Mem b bonds × (ltb 0 (stake b) ≡ true)
unfolding schedule
schedule-mem bonds b m =
    (mem-filter has_stake).0 ((Perm.mem_iff (sort_by-perm by_id (filter has_stake bonds))).0 m)

mem-schedule :
    (bonds : List ValidatorBond) (b : ValidatorBond)
    → Mem b bonds
    → ltb 0 (stake b) ≡ true
    → Mem b (schedule bonds)
unfolding schedule
mem-schedule bonds b m h =
    (Perm.mem_iff (sort_by-perm by_id (filter has_stake bonds))).1 ((mem-filter has_stake).1 (m, h))

idle :
    (bonds : List ValidatorBond)
    → schedule bonds ≡ []
    → (b : ValidatorBond) → Mem b bonds
    → stake b ≡ 0
idle bonds h b m = elim (Bool-cases (ltb 0 (stake b))) [
  | inl p ↦ absurd (not-mem-nil (subst (Mem b) h (mem-schedule bonds b m p)))
  | inr p ↦ ground arith
]

encoded_pair :
    {A : Type 0} {m n : Result EncodingError Bytes} {a b : Bytes} (f : Bytes → A)
    → m ≡ ok a
    → n ≡ ok b
    → Path
        (Result ProposerError A)
        (do writer ← encoded m; context ← encoded n; ok (f (writer ++ context)))
        (ok (f (a ++ b)))
encoded_pair f h k = rw (h, k)

module _ (sha3_256 : Bytes → Bytes) (s : ValidatorStakeSnapshot) (previous_block_hash : Text)
    (height : ℕ) where
  proposer_draw_ok :
      is_hash s.root ≡ true
      → s.height ≤ max_safe_integer
      → is_hash previous_block_hash ≡ true
      → height ≤ max_safe_integer
      → proposer_draw sha3_256 s previous_block_hash height
        ≡ ok (big_endian 0 (sha3_256 (draw_bytes s previous_block_hash height)))
  unfolding proposer_draw assert_hash draw_context domain
  proposer_draw_ok root safe previous fits =
      let tag : build (domain proposer_draw_domain) ≡ ok (string_bytes proposer_draw_domain) =
        write_string-Writes proposer_draw_domain (omega arith) [] in
      let context : draw_context s previous_block_hash height ≡ ok _ =
        then_write-Writes _ _ _ _
          (then_write-Writes _ _ _ _
            (then_write-Writes _ _ _ _
              (write_string-Writes (to_lower_case previous_block_hash) (hash_length _ previous))
              (u64-Writes height fits))
            (write_string-Writes (to_lower_case s.root) (hash_length _ root)))
          (u64-Writes s.height safe) [] in
      rw previous (encoded_pair (λ t. big_endian 0 (sha3_256 t)) tag context)

  draw_from_lem :
      (validators : List ValidatorBond) (draw : ℕ)
      → validators ≢ []
      → proposer_draw sha3_256 s previous_block_hash height ≡ ok draw
      → draw_from sha3_256 s previous_block_hash height validators
        ≡ (draw_loop (draw % total_stake validators) 0 validators >>= λ id. ok (some id))
  unfolding draw_from
  draw_from_lem [] draw h e = absurd (h refl)
  draw_from_lem (v ∷ vs) draw h e = rw e

  -- A draw in a bond's interval selects the bond: it owns as many draws as it has stake.
  pub select_block_proposer_interval :
      (draw : ℕ) (o : Owner (schedule s.validators) (draw % total_stake (schedule s.validators)))
      → IsSnapshot s
      → proposer_draw sha3_256 s previous_block_hash height ≡ ok draw
      → select_block_proposer sha3_256 s previous_block_hash height ≡ ok (some o.bond.validator_id)
  unfolding select_block_proposer
  select_block_proposer_interval draw o h e =
      let sorted = sorted_positive_validators_ok s h in
      let found =
        draw_loop_interval (draw % total_stake (schedule s.validators)) 0 o.before o.bond o.after
          (omega (arith, o.above)) (omega (arith, o.below)) in
      let found' = ap (draw_loop (draw % total_stake (schedule s.validators)) 0) o.split ∙ found in
      let some_bond : schedule s.validators ≢ [] = λ n.
        not-mem-nil
          (subst (Mem o.bond) (sym o.split ∙ n) (mem-append_right o.before mem-cons_self)) in
      rw (sorted, draw_from_lem (schedule s.validators) draw some_bond e, found')

  -- What the selection returns: no validator if none has stake, or the owner of the draw.
  abbrev pub Selected : ℕ → Type 0
  Selected draw =
      (((b : ValidatorBond) → Mem b s.validators → stake b ≡ 0)
        × (select_block_proposer sha3_256 s previous_block_hash height ≡ ok none))
      ⊎ ((o : Owner (schedule s.validators) (draw % total_stake (schedule s.validators))) × Mem
            o.bond s.validators
          × (0 < stake o.bond)
          × (select_block_proposer sha3_256 s previous_block_hash height
              ≡ ok (some o.bond.validator_id)))

  selected :
      (draw : ℕ) (vs : List ValidatorBond)
      → schedule s.validators ≡ vs
      → IsSnapshot s
      → proposer_draw sha3_256 s previous_block_hash height ≡ ok draw
      → Selected draw
  unfolding select_block_proposer draw_from
  selected draw [] e h d =
      let sorted = sorted_positive_validators_ok s h in inl (idle s.validators e, rw (sorted, e))
  selected draw (v ∷ vs) e h d =
      let total = total_stake (schedule s.validators) in
      let m = schedule-mem s.validators v (subst (Mem v) (sym e) mem-cons_self) in
      let positive : 0 < total = omega (arith, ap total_stake e, ltb→lt 0 (stake v) m.1) in
      let o = Owner_of_draw (draw % total) (schedule s.validators) (omega arith) in
      let owner_mem = subst (Mem o.bond) (sym o.split) (mem-append_right o.before mem-cons_self) in
      let (known, paid) = schedule-mem s.validators o.bond owner_mem in
      inr (o, known, ltb→lt 0 (stake o.bond) paid, select_block_proposer_interval draw o h d)

  -- On an accepted snapshot, for a previous hash that is one and a safe height, the draw and the selection
  -- return: nobody exactly if no bond has stake, otherwise a bond with stake, in whose interval the draw,
  -- modulo the total stake, lies.
  pub select_block_proposer_lem :
      IsSnapshot s
      → is_hash previous_block_hash ≡ true
      → height ≤ max_safe_integer
      → (draw : ℕ) × (proposer_draw sha3_256 s previous_block_hash height ≡ ok draw) × Selected draw
  select_block_proposer_lem h previous fits =
      let d = proposer_draw_ok h.0 h.1 previous fits in
      (
        big_endian 0 (sha3_256 (draw_bytes s previous_block_hash height)),
        d,
        selected _ (schedule s.validators) refl h d,
      )
