-- ===== src/Format/Directives.antt =====
-- `formatv` of libs/format.c: how it goes through a format, one piece after the other.
use osakauss.Common.{
  ℕ, ◌%◌, ◌≡◌, refl, sym, ap, ◌∙◌, ◌≢◌, ◌⊎◌, inl, inr, Bool, true, false, not, ◌&&◌, List, [], ◌∷◌,
  ◌++◌, Option, none, some, ◌==◌, ==_ne, eq_cases, if◌then◌else◌, arith,
}
use mathlib.Core.List.{append_assoc}
use osakauss.Format.{
  Arg, word, text, Printed, print_then, print_shown, print_word, print_text, directive, formatv,
  format_h32, format_i32, format_pointer, signed,
}

pub print_then-nil : (r : Printed) → print_then [] r ≡ r
print_then-nil none = refl
print_then-nil (some (out, rest)) = refl

print_then-append :
    (xs ys : List ℕ) (r : Printed) → print_then xs (print_then ys r) ≡ print_then (xs ++ ys) r
print_then-append xs ys none = refl
print_then-append xs ys (some (out, rest)) =
    ap (λ zs. some (zs, rest)) (sym (append_assoc xs ys out))

print_then-some :
    (xs : List ℕ) (r : Printed) {out : List ℕ} {rest : List Arg}
    → print_then xs r ≡ some (out, rest)
    → (tail : List ℕ) × (r ≡ some (tail, rest)) × (out ≡ xs ++ tail)
print_then-some xs none e = absurd cc
print_then-some xs (some (tail, left)) e = (tail, cc, cc)

-- The code prints some bytes and leaves some arguments, whatever follows it, or it is undefined.
abbrev Uniform : ((List Arg → Printed) → Printed) → Type 0
Uniform F =
    ((next : List Arg → Printed) → F next ≡ none)
    ⊎ ((xs : List ℕ) × (left : List Arg) × ((next : List Arg → Printed)
          → F next ≡ print_then xs (next left)))

if-Uniform :
    (b : Bool) {F G : (List Arg → Printed) → Printed}
    → Uniform F
    → Uniform G
    → Uniform (λ next. if b then F next else G next)
if-Uniform true u v = u
if-Uniform false u v = v

print_shown-Uniform :
    (o : Option (List ℕ)) (left : List Arg) → Uniform (λ next. print_shown o (next left))
print_shown-Uniform none left = inl (λ next. refl)
print_shown-Uniform (some xs) left = inr (xs, left, λ next. refl)

print_word-Uniform : (show : ℕ → Option (List ℕ)) (args : List Arg) → Uniform (print_word show args)
print_word-Uniform show [] = inl (λ next. refl)
print_word-Uniform show (word w ∷ args) = print_shown-Uniform (show w) args
print_word-Uniform show (text s ∷ args) = inl (λ next. refl)

print_text-Uniform : (args : List Arg) → Uniform (print_text args)
print_text-Uniform [] = inl (λ next. refl)
print_text-Uniform (word w ∷ args) = inl (λ next. refl)
print_text-Uniform (text s ∷ args) = inr (s, args, λ next. refl)

directive-Uniform : (d : ℕ) (args : List Arg) → Uniform (directive d args)
unfolding directive
directive-Uniform d args =
    if-Uniform (d == b'c') (print_word-Uniform (λ w. some ((w % 256) ∷ [])) args) (
      if-Uniform (d == b's') (print_text-Uniform args) (
        if-Uniform (d == b'x') (print_word-Uniform (λ w. some (format_h32 w true)) args) (
          if-Uniform (d == b'd') (print_word-Uniform (λ w. format_i32 (signed w)) args) (
            if-Uniform (d == b'p') (print_word-Uniform (λ w. some (format_pointer w)) args) (
              if-Uniform (d == b'%') (inr (b'%' ∷ [], args, λ next. refl))
                (inr ([], args, λ next. sym (print_then-nil (next args)))))))))

pub formatv-percent :
    (c d : ℕ) (s : List ℕ) (args : List Arg)
    → c ≡ b'%'
    → formatv (c ∷ d ∷ s) args ≡ directive d args (formatv s)
unfolding formatv
formatv-percent c d s args e = rw e

pub formatv-plain :
    (c : ℕ) (s : List ℕ) (args : List Arg)
    → c ≢ b'%'
    → formatv (c ∷ s) args ≡ print_then (c ∷ []) (formatv s args)
unfolding formatv
formatv-plain c [] args ne = rw (==_ne c b'%' ne)
formatv-plain c (d ∷ s) args ne = rw (==_ne c b'%' ne)

formatv-end : (c : ℕ) (args : List Arg) → c ≡ b'%' → formatv (c ∷ []) args ≡ none
unfolding formatv
formatv-end c args e = rw e

pub formatv-nil : (args : List Arg) → formatv [] args ≡ some ([], args)
unfolding formatv
formatv-nil args = refl

formatv-plain_append :
    (c : ℕ) (s t : List ℕ) (args : List Arg) {out : List ℕ} {rest : List Arg}
    → c ≢ b'%'
    → ((tail : List ℕ)
        → formatv s args ≡ some (tail, rest)
        → formatv (s ++ t) args ≡ print_then tail (formatv t rest))
    → formatv (c ∷ s) args ≡ some (out, rest)
    → formatv (c ∷ (s ++ t)) args ≡ print_then out (formatv t rest)
formatv-plain_append c s t args {out} {rest} ne after e =
    let (tail, here, parts) =
      print_then-some (c ∷ []) (formatv s args) (sym (formatv-plain c s args ne) ∙ e) in
    formatv-plain c (s ++ t) args ne
    ∙ ap (print_then (c ∷ [])) (after tail here)
    ∙ print_then-append (c ∷ []) tail (formatv t rest)
    ∙ ap (λ xs. print_then xs (formatv t rest)) (sym parts)

formatv-percent_append :
    (c d : ℕ) (s t : List ℕ) (args : List Arg) {out : List ℕ} {rest : List Arg}
    → c ≡ b'%'
    → ((left : List Arg) (tail : List ℕ)
        → formatv s left ≡ some (tail, rest)
        → formatv (s ++ t) left ≡ print_then tail (formatv t rest))
    → formatv (c ∷ d ∷ s) args ≡ some (out, rest)
    → formatv (c ∷ d ∷ (s ++ t)) args ≡ print_then out (formatv t rest)
formatv-percent_append c d s t args {out} {rest} percent after e = elim (directive-Uniform d args) [
  | inl undefined ↦ absurd (cc (formatv-percent c d s args percent, undefined (formatv s)))
  | inr (xs, left, prints) ↦
      let (tail, here, parts) =
        print_then-some xs (formatv s left)
          (sym (prints (formatv s)) ∙ sym (formatv-percent c d s args percent) ∙ e) in
      formatv-percent c d (s ++ t) args percent
      ∙ prints (formatv (s ++ t))
      ∙ ap (print_then xs) (after left tail here)
      ∙ print_then-append xs tail (formatv t rest)
      ∙ ap (λ ys. print_then ys (formatv t rest)) (sym parts)
]

-- A format whose first part ends between two pieces is printed as the first part, and then, with the
-- arguments that the first part has left, as the second part.
pub formatv-append :
    (s t : List ℕ) (args : List Arg) {out : List ℕ} {rest : List Arg}
    → formatv s args ≡ some (out, rest)
    → formatv (s ++ t) args ≡ print_then out (formatv t rest)
formatv-append [] t args {out} {rest} e =
    let same : Path Printed (some ([], args)) (some (out, rest)) = sym (formatv-nil args) ∙ e in
    let left : args ≡ rest = cc in
    let printed : [] ≡ out = cc in
    sym (print_then-nil (formatv t args))
    ∙ ap (λ p. print_then p (formatv t args)) printed
    ∙ ap (λ args'. print_then out (formatv t args')) left
formatv-append (c ∷ []) t args {out} {rest} e = elim (eq_cases c b'%') [
  | inl percent ↦ absurd (cc (formatv-end c args percent))
  | inr plain ↦ formatv-plain_append c [] t args plain (λ tail. formatv-append [] t args) e
]
formatv-append (c ∷ d ∷ s) t args {out} {rest} e = elim (eq_cases c b'%') [
  | inl percent ↦
      formatv-percent_append c d s t args percent (λ left tail. formatv-append s t left) e
  | inr plain ↦
      formatv-plain_append c (d ∷ s) t args plain (λ tail. formatv-append (d ∷ s) t args) e
]

abbrev pub no_percent : List ℕ → Bool
no_percent [] = true
no_percent (c ∷ s) = not (c == b'%') && no_percent s

-- A format without `%` is printed as it is and takes no argument.
pub formatv-no_percent :
    (s : List ℕ) (args : List Arg) → no_percent s ≡ true → formatv s args ≡ some (s, args)
formatv-no_percent [] args h = formatv-nil args
formatv-no_percent (c ∷ s) args h =
    let plain : c ≢ b'%' = ground arith in
    let later : no_percent s ≡ true = ground arith in
    formatv-plain c s args plain ∙ ap (print_then (c ∷ [])) (formatv-no_percent s args later)

-- After a format that ends between two pieces, a `%` at the end makes the loop step over the NUL, and
-- the call is undefined, whatever it has printed before.
pub formatv-trailing_percent :
    (s : List ℕ) (args : List Arg) {out : List ℕ} {rest : List Arg}
    → formatv s args ≡ some (out, rest)
    → formatv (s ++ (b'%' ∷ [])) args ≡ none
formatv-trailing_percent s args {out} {rest} e =
    formatv-append s (b'%' ∷ []) args e ∙ ap (print_then out) (formatv-end b'%' rest refl)
