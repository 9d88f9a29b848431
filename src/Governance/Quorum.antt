-- ===== src/Governance/Quorum.antt =====
-- The quorum of an assembly by attendance: apps/api/src/assembly/quorum.ts.
pub mod Agreement
use koinoxrista.Prelude.{
  ℕ, zero, suc, ◌+◌, ◌-◌, ◌*◌, ◌/◌, ◌%◌, ◌^◌, ◌≤◌, ◌<◌, min, max, String, ◌≡◌, refl, sym, ap, ◌∙◌,
  ◌≢◌, ◌↔◌, ◌⊎◌, inl, inr, Bool, true, false, not, ◌&&◌, ◌||◌, Option, none, some, List, [], ◌∷◌,
  ◌++◌, map, arith, ltb, leb, ◌==◌, if◌then◌else◌, ltb→lt, lt→ltb, leb→le, ==_iff, ==_refl,
  Bool-cases, Option-cases, length, get_elem?, take, get_or, length-append, length-map, total,
  total-append, total_scale, All, filter, All-append, total_mono, any, all, any-false, all-true,
  sum, sum-map, Result, ok, err, ◌>>=◌, ◌>>◌, throw_if, throw_if-ok, >>=-eq-ok, ok-injective,
}
use koinoxrista.Prelude.Int.{
  ℤ, pos, negsuc, pos_part, neg_part, sub_ℕ, ◌+ℤ◌, ◌-ℤ◌, ◌≤ℤ◌, ltb_ℤ, leb_ℤ, min_ℤ, max_ℤ, int_laws,
  pos_part-eq, +ℤ_parts, -ℤ_parts, eq_of_parts,
}
use koinoxrista.Prelude.Sort.{insert, sort, total-sort, sort-All, IsSorted, sort-IsSorted}
use koinoxrista.Prelude.Tables.{
  find, count, update_many, update_many-none, count_mono, update_many-All, find-holds, find-only,
}
use text.Mathlib.Text.{◌==◌ as str_eq}
use text.Mathlib.TextEquality.{eq_iff}
use text.Mathlib.TextPositions.{eq_refl}
use koinoxrista.Governance.Tally.{Threshold}

pub record QuorumResult : Type 0 where
  pub quorum_met : Bool
  pub present_permille : ℕ

-- `quorumOf`, on whole numbers, which `Math.trunc` leaves as they are.
unfoldable pub quorum_of : ℤ → ℤ → Threshold → QuorumResult
quorum_of total_millimes present_millimes threshold =
    let all_millimes = pos_part total_millimes in
    let present = min (pos_part present_millimes) all_millimes in
    record {
      quorum_met = if all_millimes == 0 then true else leb all_millimes (present * 2);
      present_permille = if ltb 0 all_millimes then present * 1000 / all_millimes else 0;
    }
