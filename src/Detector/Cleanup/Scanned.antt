-- ===== src/Detector/Cleanup/Scanned.antt =====
-- The loop of `_prune_snapshots`, where every entry can be looked at.
use openring.Prelude.{
  ℕ, String, Bool, true, false, ◌&&◌, ◌≡◌, ◌⊎◌, refl, inl, inr, List, [], ◌∷◌, any, is_some,
  if◌then◌else◌, Bool-cases, arith, ◌==◌, All,
}
use openring.Detector.Cleanup.Base.{Entry, scan, mem, is_old, keep, delete}

abbrev pub has_path : String → List Entry → Bool
has_path p = any (λ e. e.path == p)

-- `stat` raises for no entry.
abbrev pub AllStat : List Entry → Type 0
AllStat = All (λ e. is_some e.modified ≡ true)

-- The entry is deleted.
abbrev pub leaves : ℕ → Entry → Bool
leaves cutoff e = e.is_file && is_old cutoff e.modified && e.unlinks

pub scan-cons :
    (cutoff : ℕ) (e : Entry) (es : List Entry)
    → is_some e.modified ≡ true
    → let rest = scan cutoff true es in
      scan cutoff true (e ∷ es) ≡ (if leaves cutoff e then delete e rest else keep e rest)
unfolding scan
scan-cons cutoff e es ok = ground (arith, ok)

scan_nil : (cutoff : ℕ) → AllStat (scan cutoff true []).kept
unfolding scan
scan_nil cutoff = tt

pub scan_calm : (cutoff : ℕ) (es : List Entry) → AllStat es → (scan cutoff true es).raised ≡ false
unfolding scan
scan_calm cutoff [] ok = refl
scan_calm cutoff (e ∷ es) ok = ground (arith, ok.0, scan_calm cutoff es ok.1)

pub scan-AllStat : (cutoff : ℕ) (es : List Entry) → AllStat es → AllStat (scan cutoff true es).kept
scan-AllStat cutoff [] ok = scan_nil cutoff
scan-AllStat cutoff (e ∷ es) ok = elim (Bool-cases (leaves cutoff e)) [
  | inl gone ↦ rw (scan-cons cutoff e es ok.0) (rw gone (scan-AllStat cutoff es ok.1))
  | inr kept ↦ rw (scan-cons cutoff e es ok.0) (rw kept (ok.0, scan-AllStat cutoff es ok.1))
]

-- A path of the directory is that of an entry that is left, or of one that is deleted.
pub scan-has_path :
    (cutoff : ℕ) (p : String) (es : List Entry)
    → AllStat es
    → has_path p es ≡ true
    → (has_path p (scan cutoff true es).kept ≡ true) ⊎ (mem p (scan cutoff true es).deleted ≡ true)
scan-has_path cutoff p [] ok has = cc
scan-has_path cutoff p (e ∷ es) ok has =
    let rest = scan cutoff true es in
    let later : (e.path == p) ≡ false
        → (has_path p rest.kept ≡ true) ⊎ (mem p rest.deleted ≡ true) =
      λ other. scan-has_path cutoff p es ok.1 (rw other at has) in
    elim (Bool-cases (leaves cutoff e)) [
      | inl gone ↦ rw (scan-cons cutoff e es ok.0) (
          rw gone (elim (Bool-cases (e.path == p)) [
            | inl same ↦ inr (rw same refl)
            | inr other ↦ rw other (later other)
          ]))
      | inr kept ↦ rw (scan-cons cutoff e es ok.0) (
          rw kept (elim (Bool-cases (e.path == p)) [
            | inl same ↦ inl (rw same refl)
            | inr other ↦ rw other (later other)
          ]))
    ]
