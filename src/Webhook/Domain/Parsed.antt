-- ===== src/Webhook/Domain/Parsed.antt =====
-- Which host a SIP header names (src/handlers/livekit/webhook.rs).
use sayna.Prelude.{
  ℕ, suc, ◌+◌, ◌-◌, ltb, Bool, true, false, Option, none, some, [], ◌∷◌, ◌++◌, length,
  length-append, take, drop, ◌==◌, ==_iff, refl, ap, sym, ◌≡◌, ◌≢◌, ◌∙◌, inl, inr, Bool-cases,
  Option-cases, arith,
}
use mathlib.Core.List.{append-nil, append_assoc}
use sayna.Prelude.Text.{Text, codes, trim}
use sayna.Prelude.Split.{Lacks, Lacks-append}
use sayna.Webhook.Domain.{
  value, find, slice, address, before, after, sip_part, host_of_user, parse_uri, parse_trimmed,
  parse_sip_domain,
}

find-Lacks : (c : ℕ) (s : Text) → Lacks c s → find c s ≡ none
unfolding find
find-Lacks c [] h = refl
find-Lacks c (d ∷ s) (n, h) = rw (n, find-Lacks c s h) refl

pub find-append : (c : ℕ) (p q : Text) → Lacks c p → find c (p ++ (c ∷ q)) ≡ some (length p)
unfolding find
find-append c [] q h = ground arith
find-append c (d ∷ p) q (n, h) = rw (n, find-append c p q h) refl

pub find-split :
    (c : ℕ) (s : Text) (i : ℕ)
    → find c s ≡ some i
    → (p : Text) × (q : Text) × (s ≡ p ++ (c ∷ q)) × (length p ≡ i) × Lacks c p
unfolding find
find-split c [] i e = absurd (ground (arith, e))
find-split c (d ∷ s) i e = elim (Bool-cases (d == c)) [
  | inl y ↦
      let zero_at : 0 ≡ i = ground (arith, e, y) in
      ([], s, ap (λ (k : ℕ). k ∷ s) ((==_iff d c).0 y), zero_at, tt)
  | inr n ↦ elim (Option-cases (find c s)) [
    | inl none_later ↦ absurd (ground (arith, e, n, none_later))
    | inr (j, there) ↦
        let (p, q, same, len, lacks) = find-split c s j there in
        (d ∷ p, q, ap (◌∷◌ d) same, ground (arith, e, n, there, len), (n, lacks))
  ]
]

drop_past : (p : Text) (c : ℕ) (q : Text) → drop (suc (length p)) (p ++ (c ∷ q)) ≡ q
drop_past [] c q = refl
drop_past (d ∷ p) c q = drop_past p c q

drop-append : (p : Text) (c : ℕ) (q : Text) → drop (length p + 1) (p ++ (c ∷ q)) ≡ q
drop-append p c q =
    let next : length p + 1 ≡ suc (length p) = omega arith in
    ap (λ n. drop n (p ++ (c ∷ q))) next ∙ drop_past p c q

take-before : (p q : Text) → take (length p) (p ++ q) ≡ p
take-before [] q = refl
take-before (c ∷ p) q = ap (◌∷◌ c) (take-before p q)

before-Lacks : (c : ℕ) (s : Text) → Lacks c s → before c s ≡ s
unfolding before
before-Lacks c [] h = refl
before-Lacks c (d ∷ s) (n, h) = rw (n, before-Lacks c s h) refl

before-append : (c : ℕ) (p q : Text) → Lacks c p → before c (p ++ (c ∷ q)) ≡ p
unfolding before
before-append c [] q h = ground arith
before-append c (d ∷ p) q (n, h) = rw (n, before-append c p q h) refl

after-append : (c : ℕ) (p q : Text) → Lacks c p → after c (p ++ (c ∷ q)) ≡ some q
unfolding after
after-append c [] q h = ground arith
after-append c (d ∷ p) q (n, h) = rw (n) (after-append c p q h)

-- An address between brackets is what stands there.
bracketed :
    (display inner tail : Text)
    → Lacks 60 display
    → Lacks 62 display
    → Lacks 62 inner
    → address (display ++ (60 ∷ (inner ++ (62 ∷ tail)))) ≡ value inner
unfolding address slice
bracketed display inner tail l r h =
    let close : find 62 (display ++ (60 ∷ (inner ++ (62 ∷ tail))))
        ≡ some (length (display ++ (60 ∷ inner))) =
      ap (find 62) (sym (append_assoc display (60 ∷ inner) (62 ∷ tail)))
      ∙ find-append 62 (display ++ (60 ∷ inner)) tail
          (Lacks-append 62 display (60 ∷ inner) r (refl, h)) in
    let len : length (display ++ (60 ∷ inner)) ≡ length display + 1 + length inner =
      omega (arith, length-append display (60 ∷ inner)) in
    let ordered : ltb (length (display ++ (60 ∷ inner))) (length display + 1) ≡ false =
      ground (arith, len) in
    let long : length (display ++ (60 ∷ inner)) - (length display + 1) ≡ length inner =
      omega (arith, len) in
    rw
      (
        address,
        find-append 60 display (inner ++ (62 ∷ tail)) l,
        close,
        slice,
        ordered,
        drop-append display 60 (inner ++ (62 ∷ tail)),
        long,
        take-before inner (62 ∷ tail),
      )
      refl

-- "sips:" or "sip:"
abbrev pub scheme : Bool → Text
scheme true = codes "sips:"
scheme false = codes "sip:"

-- Parameters, after the host.
abbrev pub parameters : Option Text → Text
parameters none = []
parameters (some p) = 59 ∷ p

scheme-Lacks :
    (secure : Bool) → Lacks 59 (scheme secure) × Lacks 60 (scheme secure) × Lacks 62 (scheme secure)
scheme-Lacks true = ground arith
scheme-Lacks false = ground arith

before-parameters :
    (uri : Text) (p : Option Text) → Lacks 59 uri → before 59 (uri ++ parameters p) ≡ uri
before-parameters uri none h = ap (before 59) (append-nil uri) ∙ before-Lacks 59 uri h
before-parameters uri (some p) h = before-append 59 uri p h

host_of_scheme :
    (secure : Bool) (user host : Text)
    → Lacks 64 user
    → host_of_user (scheme secure ++ (user ++ (64 ∷ host))) ≡ some host
unfolding host_of_user sip_part
host_of_scheme true user host h = after-append 64 user host h
host_of_scheme false user host h = after-append 64 user host h

-- A header that holds an address: bare, or between brackets with texts around them.
abbrev pub framed : Option (Text × Text) → Text → Text
framed none inner = inner
framed (some (display, tail)) inner = display ++ (60 ∷ (inner ++ (62 ∷ tail)))

-- The brackets of the frame are the first ones.
abbrev pub IsFrame : Option (Text × Text) → Text → Type 0
IsFrame none inner = Lacks 60 inner
IsFrame (some (display, tail)) inner = Lacks 60 display × Lacks 62 display × Lacks 62 inner

address-framed :
    (frame : Option (Text × Text)) (inner : Text)
    → IsFrame frame inner
    → address (framed frame inner) ≡ value inner
unfolding address
address-framed none inner l = rw (address, find-Lacks 60 inner l) refl
address-framed (some (display, tail)) inner (l, r, h) = bracketed display inner tail l r h

module _ (lower : Text → Text) where
  parse_trimmed-address :
      (t uri : Text)
      → t ≢ []
      → address t ≡ value uri
      → parse_trimmed lower t ≡ value (parse_uri lower (before 59 uri))
  unfolding parse_trimmed
  parse_trimmed-address [] uri n e = absurd (n refl)
  parse_trimmed-address (c ∷ t) uri n e = rw (parse_trimmed, e) refl

  framed-some : (frame : Option (Text × Text)) (c : ℕ) (s : Text) → framed frame (c ∷ s) ≢ []
  framed-some none c s e = absurd (ground (arith, e))
  framed-some (some ([], tail)) c s e = absurd (ground (arith, e))
  framed-some (some (d ∷ display, tail)) c s e = absurd (ground (arith, e))

  scheme-some :
      (frame : Option (Text × Text)) (secure : Bool) (s : Text)
      → framed frame (scheme secure ++ s) ≢ []
  scheme-some frame true s = framed-some frame 115 (codes "ips:" ++ s)
  scheme-some frame false s = framed-some frame 115 (codes "ip:" ++ s)

  -- The header, less the blanks around it, is the address of a user at a host, bare or between
  -- brackets, by either scheme, with or without parameters; the user has no ";" and no "@", the host
  -- no ";", and the brackets are the first ones of the header. Then the domain is the host in small
  -- letters, without the blanks around it.
  pub parse_sip_domain-host :
      (raw user host : Text) (secure : Bool) (frame : Option (Text × Text)) (p : Option Text)
      → trim raw ≡ framed frame ((scheme secure ++ (user ++ (64 ∷ host))) ++ parameters p)
      → IsFrame frame ((scheme secure ++ (user ++ (64 ∷ host))) ++ parameters p)
      → Lacks 59 user
      → Lacks 64 user
      → Lacks 59 host
      → parse_sip_domain lower raw ≡ value (some (lower (trim host)))
  unfolding parse_sip_domain parse_uri
  parse_sip_domain-host raw user host secure frame p e f u at_user h =
      let uri : Text = scheme secure ++ (user ++ (64 ∷ host)) in
      let lacks : Lacks 59 uri =
        Lacks-append 59 (scheme secure) (user ++ (64 ∷ host)) (scheme-Lacks secure).0
          (Lacks-append 59 user (64 ∷ host) u (refl, h)) in
      let some_text : framed frame (uri ++ parameters p) ≢ [] = λ empty.
        scheme-some frame secure ((user ++ (64 ∷ host)) ++ parameters p) (
          ap (framed frame)
            (sym (append_assoc (scheme secure) (user ++ (64 ∷ host)) (parameters p)))
          ∙ empty) in
      ap (parse_trimmed lower) e
      ∙ parse_trimmed-address (framed frame (uri ++ parameters p)) (uri ++ parameters p) some_text
          (address-framed frame (uri ++ parameters p) f)
      ∙ ap (λ (t : Text). value (parse_uri lower t)) (before-parameters uri p lacks)
      ∙ rw (parse_uri, host_of_scheme secure user host at_user) refl
