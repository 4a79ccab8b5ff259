-- ===== src/Web/Units.antt =====
-- pat-service/web/src/admin/common.jsx: `bytes`.
use llm_stack.Base.{
  ℕ, zero, suc, ◌+◌, ◌*◌, ◌/◌, ◌%◌, ◌≤◌, ◌≡◌, ◌⊎◌, inl, inr, refl, List, [], ◌∷◌, ◌++◌, Option,
  none, some, Text, codes, decimal, leb, nat_beq, if◌then◌else◌, arith, if_ind,
}

-- `bytes` of admin/common.jsx, before it is printed: the number of the unit, and tenths of it. The
-- quotients are exact for counts below 2 ^ 53.
pub record Size : Type 0 where
  pub unit : ℕ
  pub tenths : ℕ

abbrev pub units : List Text
units = codes "B" ∷ codes "KiB" ∷ codes "MiB" ∷ codes "GiB" ∷ codes "TiB" ∷ []

-- The loop, with the divisor so far and the units that are left.
unfoldable pub grow : ℕ → ℕ → ℕ → ℕ → ℕ × ℕ
grow b i d zero = (i, d)
grow b i d (suc more) =
    let rest = grow b (suc i) (1024 * d) more in if leb (1024 * d) b then rest else (i, d)

-- toFixed: whole bytes, or the nearest tenth.
abbrev pub rounded : ℕ → ℕ × ℕ → Size
rounded b (zero, d) = record { unit = 0; tenths = 10 * b }
rounded b (suc i, d) = record { unit = suc i; tenths = (20 * b + d) / (2 * d) }

unfoldable pub size : ℕ → Size
unfolding grow
size b = rounded b (grow b 0 1 4)

abbrev pub unit_name : ℕ → List Text → Text
unit_name i [] = []
unit_name zero (u ∷ us) = u
unit_name (suc i) (u ∷ us) = unit_name i us

abbrev pub fixed : Size → Text
fixed s =
    if nat_beq s.unit 0
    then decimal (s.tenths / 10)
    else decimal (s.tenths / 10) ++ (codes "." ++ decimal (s.tenths % 10))

-- bytes, for what may be missing.
pub bytes : Option ℕ → Option Text
unfolding size
bytes none = none
bytes (some b) = some (fixed (size b) ++ (codes " " ++ unit_name (size b).unit units))

abbrev pub unit_size : ℕ → ℕ
unit_size zero = 1
unit_size (suc i) = 1024 * unit_size i

-- The tenths that are shown are the nearest to the count of bytes in their unit, which is one of the
-- five; but for TiB at most 1024 of a unit are shown, and but for bytes at least one.
pub size_near :
    (b : ℕ)
    → (2 * (unit_size (size b).unit * (size b).tenths) ≤ 20 * b + unit_size (size b).unit)
      × (20 * b ≤ 2 * (unit_size (size b).unit * (size b).tenths) + unit_size (size b).unit)
      × ((size b).unit ≤ 4)
      × (((size b).unit ≡ 4) ⊎ ((size b).tenths ≤ 10240))
      × (((size b).unit ≡ 0) ⊎ (10 ≤ (size b).tenths))
unfolding size grow
size_near b =
    if_ind P (leb 1024 b) _ (0, 1)
      (λ k.
        if_ind P (leb 1048576 b) _ (1, 1024)
          (λ m.
            if_ind P (leb 1073741824 b) _ (2, 1048576)
              (λ g.
                if_ind P (leb 1099511627776 b) (4, 1099511627776) (3, 1073741824)
                  (λ t. (
                    ground (arith, t),
                    ground (arith, t),
                    ground arith,
                    inl refl,
                    inr (ground (arith, t)),
                  ))
                  (λ t. (
                    ground (arith, t),
                    ground (arith, t),
                    ground arith,
                    inr (ground (arith, t)),
                    inr (ground (arith, g)),
                  )))
              (λ g. (
                ground (arith, g),
                ground (arith, g),
                ground arith,
                inr (ground (arith, g)),
                inr (ground (arith, m)),
              )))
          (λ m. (
            ground (arith, m),
            ground (arith, m),
            ground arith,
            inr (ground (arith, m)),
            inr (ground (arith, k)),
          )))
      (λ k. (ground (arith, k), ground (arith, k), ground arith, inr (ground (arith, k)), inl refl))
  where
    P : ℕ × ℕ → Type 0
    P r =
        (2 * (unit_size (rounded b r).unit * (rounded b r).tenths)
          ≤ 20 * b + unit_size (rounded b r).unit)
        × (20 * b
            ≤ 2 * (unit_size (rounded b r).unit * (rounded b r).tenths)
              + unit_size (rounded b r).unit)
        × ((rounded b r).unit ≤ 4)
        × (((rounded b r).unit ≡ 4) ⊎ ((rounded b r).tenths ≤ 10240))
        × (((rounded b r).unit ≡ 0) ⊎ (10 ≤ (rounded b r).tenths))
