-- ===== src/Qr/Choice.antt =====
-- Which version chooseQRVersion (services/qrcode.go) picks.
use gig.Base.{
  true, false, ℕ, ◌+◌, ◌*◌, ◌≤◌, ◌<◌, ◌-◌, All, get_or, leb, ◌≡◌, refl, sym, ◌⊎◌, inl, inr, arith,
}
use gig.Base.Result.{ok, err}
use gig.Qr.Bits.{
  Version, qr_versions, payload_too_large, version_of, first_fitting, choose_qr_version,
}

-- The mode and length of twelve bits, and the payload, are within the version's codewords.
pub Holds : Version → ℕ → Type 0
Holds v data_len = 12 + data_len * 8 ≤ v.total_data_codewords * 8

-- The table's version of its number, which holds the payload, and no smaller one does.
pub IsSmallest : Version → ℕ → Type 0
IsSmallest v data_len =
    (get_or (version_of 0 0 0 0) qr_versions (v.version - 1) ≡ v)
    × Holds v data_len
    × All (λ (w : Version). Holds w data_len → v.version ≤ w.version) qr_versions

-- A test `12 + data_len * 8 ≤ bits` of the chain, and what the rest of the chain gives if it fails.
test_cases : (a b : ℕ) → ((leb a b ≡ true) × (a ≤ b)) ⊎ ((leb a b ≡ false) × (b < a))
test_cases a b = ground arith

-- The version chosen for a length is the smallest of the table that holds a payload of so many
-- bytes; the payload is refused exactly when it is longer than 134 bytes, and then no version of
-- the table holds it.
pub choose_qr_version-IsSmallest :
    (data_len : ℕ)
    → ((v : Version) × (choose_qr_version data_len ≡ ok v)
        × IsSmallest v data_len
        × (data_len ≤ 134))
      ⊎ ((choose_qr_version data_len ≡ err payload_too_large)
          × (134 < data_len)
          × All (λ (w : Version). w.total_data_codewords * 8 < 12 + data_len * 8) qr_versions)
unfolding choose_qr_version first_fitting IsSmallest Holds
choose_qr_version-IsSmallest n = elim (test_cases (12 + n * 8) 152) [
  | inl (e0, h0) ↦ inl (version_of 1 19 1 7, rw (e0) refl, (refl, h0, ground arith), omega arith)
  | inr (e0, h0) ↦ elim (test_cases (12 + n * 8) 272) [
    | inl (e1, h1) ↦
        inl (version_of 2 34 1 10, rw (e0, e1) refl, (refl, h1, ground arith), omega arith)
    | inr (e1, h1) ↦ elim (test_cases (12 + n * 8) 440) [
      | inl (e2, h2) ↦
          inl (version_of 3 55 1 15, rw (e0, e1, e2) refl, (refl, h2, ground arith), omega arith)
      | inr (e2, h2) ↦ elim (test_cases (12 + n * 8) 640) [
        | inl (e3, h3) ↦
            inl (
              version_of 4 80 1 20,
              rw (e0, e1, e2, e3) refl,
              (refl, h3, ground arith),
              omega arith,
            )
        | inr (e3, h3) ↦ elim (test_cases (12 + n * 8) 864) [
          | inl (e4, h4) ↦ inl (
            version_of 5 108 1 26,
            rw (e0, e1, e2, e3, e4) refl,
            (refl, h4, ground arith),
            omega arith,
          )
          | inr (e4, h4) ↦ elim (test_cases (12 + n * 8) 1088) [
            | inl (e5, h5) ↦ inl (
              version_of 6 136 2 18,
              rw (e0, e1, e2, e3, e4, e5) refl,
              (refl, h5, ground arith),
              omega arith,
            )
            | inr (e5, h5) ↦ inr (rw (e0, e1, e2, e3, e4, e5) refl, omega arith, omega arith)
          ]
        ]
      ]
    ]
  ]
]

pub choose_qr_version-Holds :
    (data_len : ℕ) (v : Version)
    → choose_qr_version data_len ≡ ok v
    → (12 + data_len * 8 ≤ v.total_data_codewords * 8) × (data_len ≤ 134)
unfolding IsSmallest Holds
choose_qr_version-Holds n v e = elim (choose_qr_version-IsSmallest n) [
  | inl (w, chosen, (_, holds, _), short) ↦ let same : w ≡ v = cc in rw (sym same) (holds, short)
  | inr (refused, _, _) ↦ absurd cc
]
