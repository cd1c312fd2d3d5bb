-- ===== src/App/Lifecycle/Succession.antt =====
-- src/app/lifecycle.rs: the order in which a client gives up its tokens.
use mathlib.Core.Path.{subst}
use riddle.Prelude.{
  ℕ, ◌<◌, ◌≡◌, ◌≢◌, ◌⊎◌, inl, inr, refl, sym, ap, ◌∙◌, Bool, true, false, Option, none, some, arith,
}
use riddle.App.Wire.{AppToken}
use riddle.App.Lifecycle.{token_eq}
use riddle.App.Lifecycle.Tokens.{IsLater, token_eq_refl}

-- `u` was given up for `t`.
pub record IsBefore (u t : AppToken) : Type 0 where
  pub epoch :
      (u.foreground_epoch < t.foreground_epoch)
      ⊎ (t.foreground_epoch ≡ u.foreground_epoch) × (u.lease_id ≢ none) × (t.lease_id ≡ none)

before_ne :
    (u t : AppToken)
    → (u.foreground_epoch < t.foreground_epoch)
      ⊎ (t.foreground_epoch ≡ u.foreground_epoch) × (u.lease_id ≢ none) × (t.lease_id ≡ none)
    → u ≢ t
before_ne u t (inl h) e = let same = ap (λ (x : AppToken). x.foreground_epoch) e in omega arith
before_ne u t (inr (f, n, l)) e = n (ap (λ (x : AppToken). x.lease_id) e ∙ l)

pub IsBefore-ne : (u t : AppToken) → IsBefore u t → u ≢ t
IsBefore-ne u t b e = before_ne u t b.epoch e

pub IsBefore-later :
    (u r t : AppToken)
    → (u.foreground_epoch < r.foreground_epoch)
      ⊎ (r.foreground_epoch ≡ u.foreground_epoch) × (u.lease_id ≢ none) × (r.lease_id ≡ none)
    → (r.foreground_epoch < t.foreground_epoch)
      ⊎ (t.foreground_epoch ≡ r.foreground_epoch)
        × ((t.lease_id ≡ r.lease_id) ⊎ (t.lease_id ≡ none))
    → IsBefore u t
IsBefore-later u r t (inl h) (inl k) = record { epoch = inl (omega arith) }
IsBefore-later u r t (inl h) (inr (e, k)) = record { epoch = inl (omega arith) }
IsBefore-later u r t (inr (e, n, l)) (inl k) = record { epoch = inl (omega arith) }
IsBefore-later u r t (inr (e, n, l)) (inr (f, inl k)) = record { epoch = inr (f ∙ e, n, k ∙ l) }
IsBefore-later u r t (inr (e, n, l)) (inr (f, inr k)) = record { epoch = inr (f ∙ e, n, k) }

true-false : {b : Bool} → b ≡ true → b ≡ false → ⊥
true-false h k = cc

some-none : {x : ℕ} → some x ≡ none → ⊥
some-none h = cc

same_token :
    (r t : AppToken)
    → r.app_id ≡ t.app_id
    → t.generation ≡ r.generation
    → t.foreground_epoch ≡ r.foreground_epoch
    → t.lease_id ≡ r.lease_id
    → token_eq r t ≡ true
same_token r t a g e l =
    let same : r ≡ t = grind arith in subst (λ x. token_eq r x ≡ true) same (token_eq_refl r)

passed_same_epoch :
    (r t : AppToken) (lease : Option ℕ)
    → r.lease_id ≡ lease
    → r.app_id ≡ t.app_id
    → t.generation ≡ r.generation
    → t.foreground_epoch ≡ r.foreground_epoch
    → t.lease_id ≡ none
    → token_eq r t ≡ false
    → IsBefore r t
passed_same_epoch r t none k a g e l n = absurd (true-false (same_token r t a g e (l ∙ sym k)) n)
passed_same_epoch r t (some x) k a g e l n = record {
  epoch = inr (e, (λ z. some-none (sym k ∙ z)), l);
}

passed :
    (r t : AppToken)
    → r.app_id ≡ t.app_id
    → t.generation ≡ r.generation
    → (r.foreground_epoch < t.foreground_epoch)
      ⊎ (t.foreground_epoch ≡ r.foreground_epoch)
        × ((t.lease_id ≡ r.lease_id) ⊎ (t.lease_id ≡ none))
    → token_eq r t ≡ false
    → IsBefore r t
passed r t a g (inl h) n = record { epoch = inl h }
passed r t a g (inr (e, inl l)) n = absurd (true-false (same_token r t a g e l) n)
passed r t a g (inr (e, inr l)) n = passed_same_epoch r t r.lease_id refl a g e l n

-- A later token that is not the same one leaves the earlier one behind.
pub later-IsBefore :
    (r t : AppToken) → r.app_id ≡ t.app_id → IsLater r t → token_eq r t ≡ false → IsBefore r t
later-IsBefore r t a l n = passed r t a l.generation l.epoch n
