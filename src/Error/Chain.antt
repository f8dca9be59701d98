-- ===== src/Error/Chain.antt =====
-- src/error.rs: contexts, and the chain of an error with all that it wraps. An error is its message
-- and the messages of its sources, the outermost first.
mod Tests
use propmonitor.Base.{
  ℕ, suc, ◌+◌, Text, codes, text_eq, text_eq_refl, Bool, true, false, ◌&&◌, ◌||◌, ◌==◌, ==_refl,
  if◌then◌else◌, List, [], ◌∷◌, ◌++◌, append_assoc, append-nil, Result, ok, err, all, ◌≡◌, refl,
  sym, ap, subst, ◌∙◌, arith, Bool-cases, inl, inr,
}

-- `context` and `with_context`
unfoldable pub context : {A : Type 0} → Text → Result Text A → Result Text A
context ctx (ok a) = ok a
context ctx (err e) = err (ctx ++ codes ": " ++ e)

unfoldable pub starts_with : Text → Text → Bool
starts_with s [] = true
starts_with [] (d ∷ t) = false
starts_with (c ∷ s) (d ∷ t) = c == d && starts_with s t

-- `str::contains`
unfoldable pub contains : Text → Text → Bool
contains [] t = starts_with [] t
contains (c ∷ s) t = starts_with (c ∷ s) t || contains s t

-- The loop of `chain`, and `chain`
unfoldable pub chain_from : Text → List Text → Text
chain_from out [] = out
chain_from out (segment ∷ sources) =
    chain_from (if contains out segment then out else out ++ codes ": " ++ segment) sources

unfoldable pub chain : Text → List Text → Text
chain message sources = chain_from message sources

starts_with-append : (s t : Text) → starts_with (s ++ t) s ≡ true
unfolding starts_with
starts_with-append [] t = starts_any t
  where
    starts_any : (t : Text) → starts_with t [] ≡ true
    starts_any [] = refl
    starts_any (c ∷ t) = refl
starts_with-append (c ∷ s) t = ground (arith, ==_refl c, starts_with-append s t)

starts_with_more : (s t u : Text) → starts_with s t ≡ true → starts_with (s ++ u) t ≡ true
unfolding starts_with
starts_with_more [] [] [] h = refl
starts_with_more [] [] (c ∷ u) h = refl
starts_with_more [] (d ∷ t) u h = cc
starts_with_more (c ∷ s) [] u h = refl
starts_with_more (c ∷ s) (d ∷ t) u h = ground (arith, starts_with_more s t u)

contains_start : (s t : Text) → starts_with s t ≡ true → contains s t ≡ true
unfolding contains
contains_start [] t h = h
contains_start (c ∷ s) t h = ground arith

contains_more : (s t u : Text) → contains s t ≡ true → contains (s ++ u) t ≡ true
unfolding contains
contains_more [] t u h = contains_start u t (starts_with_more [] t u h)
contains_more (c ∷ s) t u h = ground (arith, contains_more s t u, starts_with_more (c ∷ s) t u)

contains_after : (s t u : Text) → contains t u ≡ true → contains (s ++ t) u ≡ true
unfolding contains
contains_after [] t u h = h
contains_after (c ∷ s) t u h = ground (arith, contains_after s t u)

chain_from-contains :
    (out : Text) (sources : List Text) (t : Text)
    → contains out t ≡ true
    → contains (chain_from out sources) t ≡ true
unfolding chain_from
chain_from-contains out [] t h = h
chain_from-contains out (segment ∷ sources) t h = elim (Bool-cases (contains out segment)) [
  | inl said ↦ rw said (chain_from-contains out sources t h)
  | inr new ↦ rw new (
      chain_from-contains (out ++ codes ": " ++ segment) sources t
        (contains_more (out ++ codes ": ") t segment (contains_more out t (codes ": ") h)))
]

-- A step of the loop, by whether the segment is there already.
chain_from-said :
    (out segment : Text) (sources : List Text)
    → contains out segment ≡ true
    → chain_from out (segment ∷ sources) ≡ chain_from out sources
unfolding chain_from
chain_from-said out segment sources h =
    ap (λ b. chain_from (if b then out else out ++ codes ": " ++ segment) sources) h

chain_from-new :
    (out segment : Text) (sources : List Text)
    → contains out segment ≡ false
    → chain_from out (segment ∷ sources) ≡ chain_from (out ++ codes ": " ++ segment) sources
unfolding chain_from
chain_from-new out segment sources h =
    ap (λ b. chain_from (if b then out else out ++ codes ": " ++ segment) sources) h

contains_self : (s : Text) → contains s s ≡ true
contains_self s =
    contains_start s s (ap (λ t. starts_with t s) (sym (append-nil s)) ∙ starts_with-append s [])

chain_from-all :
    (out : Text) (sources : List Text) → all (contains (chain_from out sources)) sources ≡ true
chain_from-all out [] = refl
chain_from-all out (segment ∷ sources) = elim (Bool-cases (contains out segment)) [
  | inl said ↦
      subst (λ whole. all (contains whole) (segment ∷ sources) ≡ true)
        (sym (chain_from-said out segment sources said))
        (ground (arith, chain_from-contains out sources segment said, chain_from-all out sources))
  | inr new ↦
      subst (λ whole. all (contains whole) (segment ∷ sources) ≡ true)
        (sym (chain_from-new out segment sources new))
        (ground (
          arith,
          chain_from-contains (out ++ codes ": " ++ segment) sources segment
              (contains_after (out ++ codes ": ") segment segment (contains_self segment)),
          chain_from-all (out ++ codes ": " ++ segment) sources,
        ))
]

-- The printed chain of an error contains its own message and the message of every error that it
-- wraps.
pub chain-contains :
    (message : Text) (sources : List Text)
    → (contains (chain message sources) message ≡ true)
      × (all (contains (chain message sources)) sources ≡ true)
unfolding chain
chain-contains message sources = (
  chain_from-contains message sources message (contains_self message),
  chain_from-all message sources,
)
