-- ===== src/Webhook/Domain/Panics.antt =====
-- When reading the host of a SIP header panics (src/handlers/livekit/webhook.rs).
use sayna.Prelude.{
  ℕ, ◌+◌, ◌≤◌, ltb, some, [], ◌∷◌, ◌++◌, length, length-append, refl, ap, sym, subst, ◌≡◌, ◌∙◌, ◌⊎◌,
  ◌↔◌, inl, inr, Bool-cases, Option-cases, arith, true,
}
use mathlib.Core.List.{append_assoc}
use sayna.Prelude.Text.{Text, trim}
use sayna.Prelude.Split.{Lacks, Lacks-append}
use sayna.Webhook.Domain.{
  Outcome, panics, value, find, slice, address, parse_trimmed, parse_sip_domain,
}
use sayna.Webhook.Domain.Parsed.{find-append, find-split}

-- A ">" before the first "<".
abbrev pub IsCrossed : Text → Type 0
IsCrossed t =
    (x : Text) × (y : Text) × (z : Text) × (t ≡ x ++ (62 ∷ (y ++ (60 ∷ z))))
    × Lacks 62 x
    × Lacks 60 x
    × Lacks 60 y

Lacks-left : (c : ℕ) (p q : Text) → Lacks c (p ++ q) → Lacks c p
Lacks-left c [] q h = tt
Lacks-left c (d ∷ p) q (n, h) = (n, Lacks-left c p q h)

Lacks-right : (c : ℕ) (p q : Text) → Lacks c (p ++ q) → Lacks c q
Lacks-right c [] q h = h
Lacks-right c (d ∷ p) q (n, h) = Lacks-right c p q h

-- Of two splits of a text at different characters, the one that starts shorter ends in the other.
shorter_first :
    (x p w q : Text)
    → p ++ (60 ∷ q) ≡ x ++ (62 ∷ w)
    → length x ≤ length p
    → (y : Text) × (p ≡ x ++ (62 ∷ y))
shorter_first [] [] w q e h = absurd (ground (arith, e))
shorter_first [] (d ∷ p) w q e h =
    let first : d ≡ 62 = ground (arith, e) in (p, ap (λ (k : ℕ). k ∷ p) first)
shorter_first (c ∷ x) [] w q e h = absurd (omega (arith, h))
shorter_first (c ∷ x) (d ∷ p) w q e h =
    let first : d ≡ c = ground (arith, e) in
    let rest : p ++ (60 ∷ q) ≡ x ++ (62 ∷ w) = ground (arith, e) in
    let (y, same) = shorter_first x p w q rest (omega (arith, h)) in
    (y, ap (λ (k : ℕ). k ∷ p) first ∙ ap (◌∷◌ c) same)

address-IsCrossed : (t : Text) → address t ≡ panics → IsCrossed t
unfolding address slice
address-IsCrossed t e = elim (Option-cases (find 60 t)) [
  | inl n ↦ absurd (ground (arith, rw (address, n) at e))
  | inr (i, open_at) ↦ elim (Option-cases (find 62 t)) [
    | inl n ↦ absurd (ground (arith, rw (address, open_at, n) at e))
    | inr (j, close_at) ↦ elim (Bool-cases (ltb j (i + 1))) [
      | inr n ↦ absurd (ground (arith, rw (address, open_at, close_at, slice, n) at e))
      | inl y ↦
          let (p, q, whole, len, lacks) = find-split 60 t i open_at in
          let (x, w, whole', len', lacks') = find-split 62 t j close_at in
          let short : length x ≤ length p = ground (arith, len, len', y) in
          let (middle, same) = shorter_first x p w q (sym whole ∙ whole') short in
          let inside : Lacks 60 (x ++ (62 ∷ middle)) = subst (Lacks 60) same lacks in
          (
            x,
            middle,
            q,
            whole ∙ ap (λ s. s ++ (60 ∷ q)) same ∙ append_assoc x (62 ∷ middle) (60 ∷ q),
            lacks',
            Lacks-left 60 x (62 ∷ middle) inside,
            (Lacks-right 60 x (62 ∷ middle) inside).1,
          )
    ]
  ]
]

crossed-address :
    (x y z : Text)
    → Lacks 62 x
    → Lacks 60 x
    → Lacks 60 y
    → address (x ++ (62 ∷ (y ++ (60 ∷ z)))) ≡ panics
unfolding address slice
crossed-address x y z r l m =
    let open_at : find 60 (x ++ (62 ∷ (y ++ (60 ∷ z)))) ≡ some (length (x ++ (62 ∷ y))) =
      ap (find 60) (sym (append_assoc x (62 ∷ y) (60 ∷ z)))
      ∙ find-append 60 (x ++ (62 ∷ y)) z (Lacks-append 60 x (62 ∷ y) l (refl, m)) in
    let late : ltb (length x) (length (x ++ (62 ∷ y)) + 1) ≡ true =
      ground (arith, length-append x (62 ∷ y)) in
    rw (address, open_at, find-append 62 x (y ++ (60 ∷ z)) r, slice, late) refl

pub Outcome-cases : {A : Type 0} → (o : Outcome A) → (o ≡ panics) ⊎ ((a : A) × (o ≡ value a))
Outcome-cases panics = inl refl
Outcome-cases (value a) = inr (a, refl)

module _ (lower : Text → Text) where
  parse_trimmed-panics : (t : Text) → (parse_trimmed lower t ≡ panics) ↔ (address t ≡ panics)
  unfolding parse_trimmed address find
  parse_trimmed-panics [] = ground arith
  parse_trimmed-panics (c ∷ t) = elim (Outcome-cases (address (c ∷ t))) [
    | inl e ↦ rw (parse_trimmed, e) ((λ u. refl), λ u. refl)
    | inr (uri, e) ↦
        rw (parse_trimmed, e) ((λ u. absurd (ground (arith, u))), λ u. absurd (ground (arith, u)))
  ]

  -- Reading a header panics exactly if, in the header less the blanks around it, a ">" stands before
  -- the first "<".
  pub parse_sip_domain-panics_iff :
      (raw : Text) → (parse_sip_domain lower raw ≡ panics) ↔ IsCrossed (trim raw)
  unfolding parse_sip_domain
  parse_sip_domain-panics_iff raw =
      let both = parse_trimmed-panics (trim raw) in
      (
        (λ e. address-IsCrossed (trim raw) (both.0 e)),
        λ (x, y, z, same, r, l, m). both.1 (ap address same ∙ crossed-address x y z r l m),
      )
