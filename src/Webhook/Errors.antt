-- ===== src/Webhook/Errors.antt =====
-- How many errors there are.
use netobserv_operator.Base.{
  ◌≤◌, ℕ, ◌+◌, Bool, true, false, ◌≡◌, refl, [], ◌∷◌, length, length-append, if◌then◌else◌, arith,
}
use netobserv_operator.Webhook.{warn, Warning, Validator, ValidationError, reject, when}

abbrev pub one_if : Bool → ℕ
one_if b = if b then 1 else 0

pub length-reject-when :
    (b : Bool) (e : ValidationError) (v : Validator)
    → length (when b (reject e) v).errors ≡ length v.errors + one_if b
unfolding when reject
length-reject-when true e v = length-append v.errors (e ∷ [])
length-reject-when false e v = omega arith

pub length-when :
    (b : Bool) (f : Validator → Validator) (v : Validator)
    → length (when b f v).errors ≡ (if b then length (f v).errors else length v.errors)
unfolding when
length-when true f v = refl
length-when false f v = refl

pub length-reject :
    (e : ValidationError) (v : Validator) → length (reject e v).errors ≡ length v.errors + 1
unfolding reject
length-reject e v = length-append v.errors (e ∷ [])

-- A check keeps the errors that there are.
abbrev pub Adds : (Validator → Validator) → Type 0
Adds step = (v : Validator) → length v.errors ≤ length (step v).errors

pub when-Adds : (b : Bool) (f : Validator → Validator) → Adds f → Adds (when b f)
unfolding when
when-Adds true f h v = h v
when-Adds false f h v = omega arith

pub reject-Adds : (e : ValidationError) → Adds (reject e)
reject-Adds e v = omega (arith, length-reject e v)

pub warn-Adds : (w : Warning) → Adds (warn w)
unfolding warn
warn-Adds w v = omega arith

pub then-Adds : (f g : Validator → Validator) → Adds f → Adds g → Adds (λ v. f (g v))
then-Adds f g h k v = omega (arith, h (g v), k v)
