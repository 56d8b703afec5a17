-- ===== src/Totp/Accepts.antt =====
-- Which codes VerifyTOTP of services/totp.go accepts.
use gig.Base.{
  ℕ, zero, suc, ◌+◌, ◌-◌, ◌*◌, ◌≤◌, ◌<◌, true, Option, Bool-cases, ◌≡◌, refl, sym, ap, ◌∙◌, ◌↔◌,
  inl, inr, arith,
}
use native.Mathlib.Decide.{ℕ_discrete}
use gig.Base.Int.{ℤ}
use gig.Base.Text.{Bytes, bytes_eq, bytes_eq_iff}
use gig.Base.Result.{ok}
use gig.Totp.{
  decode_totp_secret, code_of, totp_code, normalize_code, clamp_skew, verify_loop, verify_totp,
}

module _ (hmac : Bytes → Bytes → Bytes) (base32_decode : Bytes → Option Bytes) where
  -- The code is the one of a window that is at most `skew` windows back.
  abbrev pub IsRecent : ℕ → Bytes → Bytes → ℕ → Type 0
  IsRecent skew key code now =
      (i : ℕ) × (i ≤ skew) × (normalize_code code ≡ code_of hmac base32_decode key (now - i * 30))

  loop_accepts :
      (rounds i : ℕ) (secret key code : Bytes) (now : ℕ)
      → decode_totp_secret hmac base32_decode secret ≡ ok key
      → (verify_loop hmac base32_decode rounds i secret code now ≡ ok true) ↔ (
          (k : ℕ) × (i ≤ k)
          × (k < i + rounds)
          × (normalize_code code ≡ code_of hmac base32_decode key (now - k * 30)))
  unfolding verify_loop totp_code
  loop_accepts zero i secret key code now e =
      (λ p. absurd cc, λ (k, lo, hi, q). absurd (omega arith))
  loop_accepts (suc rounds) i secret key code now e =
      rw e
        (elim (Bool-cases
          (bytes_eq (normalize_code code) (code_of hmac base32_decode key (now - i * 30)))) [
            | inl b ↦ rw b (λ p. (i, omega arith, omega arith, (bytes_eq_iff _ _).0 b), λ p. refl)
            | inr b ↦
                let rest = loop_accepts rounds (i + 1) secret key code now e in
                rw b (
                  λ p. let (k, lo, hi, q) = rest.0 p in (k, omega arith, omega arith, q),
                  λ (k, lo, hi, q). elim (ℕ_discrete i k) [
                    | yes same ↦
                        let at : normalize_code code
                            ≡ code_of hmac base32_decode key (now - i * 30) =
                          q ∙ ap (λ j. code_of hmac base32_decode key (now - j * 30)) (sym same) in
                        absurd (let hit = (bytes_eq_iff _ _).1 at in cc)
                    | no other ↦ rest.1 (k, omega arith, omega arith, q)
                  ],
                )
          ])

  now_code :
      (key code : Bytes) (now : ℕ)
      → normalize_code code ≡ code_of hmac base32_decode key now
      → normalize_code code ≡ code_of hmac base32_decode key (now - 0 * 30)
  now_code key code now p = p ∙ ap (code_of hmac base32_decode key) (omega arith)

  code_now :
      (key code : Bytes) (now k : ℕ)
      → k ≡ 0
      → normalize_code code ≡ code_of hmac base32_decode key (now - k * 30)
      → normalize_code code ≡ code_of hmac base32_decode key now
  code_now key code now k e p = p ∙ ap (code_of hmac base32_decode key) (omega arith)

  -- With a secret that decodes, VerifyTOTP accepts a code exactly when, without its blanks, it is the
  -- code of the current window of 30 seconds or of one of the windows before it, as many as the
  -- allowed skew, which is held between 0 and 5.
  pub verify_totp_iff :
      (secret key code : Bytes) (skew : ℤ) (now : ℕ)
      → decode_totp_secret hmac base32_decode secret ≡ ok key
      → (verify_totp hmac base32_decode secret code skew now ≡ ok true)
        ↔ IsRecent (clamp_skew skew) key code now
  unfolding verify_totp totp_code
  verify_totp_iff secret key code skew now e =
      rw e
        (elim (Bool-cases (bytes_eq (normalize_code code) (code_of hmac base32_decode key now))) [
          | inl b ↦
              rw b
                (λ p. (0, omega arith, now_code key code now ((bytes_eq_iff _ _).0 b)), λ p. refl)
          | inr b ↦
              let rest = loop_accepts (clamp_skew skew) 1 secret key code now e in
              rw b (
                λ p. let (k, lo, hi, q) = rest.0 p in (k, omega arith, q),
                λ (k, within, q). elim (ℕ_discrete 0 k) [
                  | yes same ↦
                      absurd (
                        let hit = (bytes_eq_iff _ _).1 (code_now key code now k (sym same) q) in cc)
                  | no other ↦ rest.1 (k, omega arith, omega arith, q)
                ],
              )
        ])
