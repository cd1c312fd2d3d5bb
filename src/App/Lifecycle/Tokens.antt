-- ===== src/App/Lifecycle/Tokens.antt =====
-- src/app/lifecycle.rs: `accept_frame` and the order of the tokens that a client takes over.
use riddle.Prelude.{
  ℕ, ◌<◌, ◌≤◌, ◌≡◌, ◌≢◌, ◌⊎◌, inl, inr, refl, ◌∙◌, Bool, true, false, not, ◌&&◌, ◌||◌, Option, none,
  some, if◌then◌else◌, ltb, ◌==◌, Result, ok, err, Bool-cases, arith,
}
use riddle.Text.{text_eq}
use riddle.Text.Equality.{text_eq_refl, text_eq_sound}
use riddle.App.Wire.{
  AppToken, LifecycleCommand, start, enter_foreground, enter_background, shutdown, DecodedCommand,
}
use riddle.App.Lifecycle.{
  ClientError, not_a_start, tokens_required, invalid_token, LifecycleClient, optional_eq, token_eq,
  is_some, is_start, accepted, app_name, accept_active, accept_token, accept_frame,
}

-- A token of this application.
pub record IsOwn (t : AppToken) : Type 0 where
  pub named : t.app_id ≡ app_name
  pub started : t.generation ≢ 0

-- A later token of a generation: a later epoch, or the same epoch under the same lease or none.
pub record IsLater (a t : AppToken) : Type 0 where
  pub generation : t.generation ≡ a.generation
  pub epoch :
      (a.foreground_epoch < t.foreground_epoch)
      ⊎ (t.foreground_epoch ≡ a.foreground_epoch)
        × ((t.lease_id ≡ a.lease_id) ⊎ (t.lease_id ≡ none))

pub IsLater-refl : (a : AppToken) → IsLater a a
IsLater-refl a = record { generation = refl; epoch = inr (refl, inl refl) }

-- What may stand where the client held `old`: itself, or a later token.
abbrev pub Continues : Option AppToken → Option AppToken → Type 0
Continues none new = Unit
Continues (some a) none = ⊥
Continues (some a) (some t) = IsLater a t

abbrev pub IsOwnToken : Option AppToken → Type 0
IsOwnToken none = Unit
IsOwnToken (some t) = IsOwn t

optional_eq_sound : (a b : Option ℕ) → optional_eq a b ≡ true → a ≡ b
unfolding optional_eq
optional_eq_sound none none h = refl
optional_eq_sound (some a) (some b) h = ground arith
optional_eq_sound none (some b) h = cc
optional_eq_sound (some a) none h = cc

optional_eq_refl : (a : Option ℕ) → optional_eq a a ≡ true
unfolding optional_eq
optional_eq_refl none = refl
optional_eq_refl (some a) = ground arith

is_some-false : (a : Option ℕ) → is_some a ≡ false → a ≡ none
unfolding is_some
is_some-false none h = refl
is_some-false (some a) h = cc

pub token_eq_refl : (t : AppToken) → token_eq t t ≡ true
unfolding token_eq
token_eq_refl t = ground (arith, text_eq_refl t.app_id, optional_eq_refl t.lease_id)

later_epoch :
    (a b c : AppToken)
    → (a.foreground_epoch < b.foreground_epoch)
      ⊎ (b.foreground_epoch ≡ a.foreground_epoch)
        × ((b.lease_id ≡ a.lease_id) ⊎ (b.lease_id ≡ none))
    → (b.foreground_epoch < c.foreground_epoch)
      ⊎ (c.foreground_epoch ≡ b.foreground_epoch)
        × ((c.lease_id ≡ b.lease_id) ⊎ (c.lease_id ≡ none))
    → (a.foreground_epoch < c.foreground_epoch)
      ⊎ (c.foreground_epoch ≡ a.foreground_epoch)
        × ((c.lease_id ≡ a.lease_id) ⊎ (c.lease_id ≡ none))
later_epoch a b c (inl h) (inl k) = inl (omega arith)
later_epoch a b c (inl h) (inr (e, k)) = inl (omega arith)
later_epoch a b c (inr (e, h)) (inl k) = inl (omega arith)
later_epoch a b c (inr (e, inl h)) (inr (f, inl k)) = inr (f ∙ e, inl (k ∙ h))
later_epoch a b c (inr (e, inr h)) (inr (f, inl k)) = inr (f ∙ e, inr (k ∙ h))
later_epoch a b c (inr (e, h)) (inr (f, inr k)) = inr (f ∙ e, inr k)

pub IsLater-trans : (a b c : AppToken) → IsLater a b → IsLater b c → IsLater a c
IsLater-trans a b c h k = record {
  generation = k.generation ∙ h.generation;
  epoch = later_epoch a b c h.epoch k.epoch;
}

paused-IsLater :
    (t a : AppToken)
    → t.generation ≡ a.generation
    → (t.foreground_epoch == a.foreground_epoch)
        && (optional_eq t.lease_id a.lease_id || not (is_some t.lease_id))
      ≡ true
    → IsLater a t
paused-IsLater t a g h = elim (Bool-cases (is_some t.lease_id)) [
  | inl l ↦ record {
    generation = g;
    epoch = inr (ground arith, inl (optional_eq_sound t.lease_id a.lease_id (ground arith)));
  }
  | inr l ↦ record { generation = g; epoch = inr (ground arith, inr (is_some-false t.lease_id l)) }
]

accepted-IsLater :
    (command : LifecycleCommand) (t a : AppToken)
    → t.generation ≡ a.generation
    → a.foreground_epoch ≤ t.foreground_epoch
    → accepted command t a ≡ true
    → IsLater a t
unfolding accepted token_eq
accepted-IsLater start t a g e h = record {
  generation = g;
  epoch = inr (ground arith, inl (optional_eq_sound t.lease_id a.lease_id (ground arith)));
}
accepted-IsLater enter_foreground t a g e h =
    elim (Bool-cases (ltb a.foreground_epoch t.foreground_epoch)) [
      | inl l ↦ record { generation = g; epoch = inl (ground arith) }
      | inr l ↦ record {
        generation = g;
        epoch = inr (ground arith, inl (optional_eq_sound t.lease_id a.lease_id (ground arith)));
      }
    ]
accepted-IsLater enter_background t a g e h = paused-IsLater t a g h
accepted-IsLater (shutdown d) t a g e h = paused-IsLater t a g h

-- The answers to a frame that `accept_frame` may give, each with the client it leaves.
pub data Accepts (c : LifecycleClient) (frame : DecodedCommand)
    : Result ClientError Bool × LifecycleClient → Type 0 where
  refused : (e : ClientError) → Accepts c frame (err e, c)
  stale : Accepts c frame (ok false, c)
  legacy : frame.token ≡ none → c.require_v2 ≡ false → Accepts c frame (ok true, c)
  taken :
      (t : AppToken)
      → frame.token ≡ some t
      → IsOwn t
      → Continues c.active_token (some t)
      → (c.active_token ≡ none
          → c.require_v2 ≡ true
          → (frame.command ≡ start) × (t.foreground_epoch ≢ 0) × (t.lease_id ≢ none))
      → Accepts c frame (ok true, record c { active_token = some t })

is_start-true : (command : LifecycleCommand) → is_start command ≡ true → command ≡ start
unfolding is_start
is_start-true start h = refl
is_start-true enter_foreground h = cc
is_start-true enter_background h = cc
is_start-true (shutdown d) h = cc

is_some-true : (a : Option ℕ) → is_some a ≡ true → a ≢ none
unfolding is_some
is_some-true none h e = cc
is_some-true (some a) h e = cc

accept_active-Accepts :
    (c : LifecycleClient) (command : LifecycleCommand) (t : AppToken) (active : Option AppToken)
    → c.active_token ≡ active
    → IsOwn t
    → Accepts c (record { command = command; token = some t }) (accept_active c command t active)
unfolding accept_active
accept_active-Accepts c command t none e own =
    elim (Bool-cases (
      c.require_v2
      && (not (is_start command) || t.foreground_epoch == 0 || not (is_some t.lease_id)))) [
        | inl bad ↦ rw bad (refused not_a_start)
        | inr good ↦ rw good (
            taken t refl own (rw e tt) (λ _ managed. (
              is_start-true command (ground arith),
              (λ z. ground arith),
              is_some-true t.lease_id (ground arith),
            )))
      ]
accept_active-Accepts c command t (some a) e own =
    elim (Bool-cases
      (not (t.generation == a.generation) || ltb t.foreground_epoch a.foreground_epoch)) [
        | inl old ↦ rw old stale
        | inr current ↦ rw current (elim (Bool-cases (accepted command t a)) [
          | inr other ↦ rw other stale
          | inl fits ↦ rw fits (
              taken t refl own
                (rw e (accepted-IsLater command t a (ground arith) (ground arith) fits))
                (λ n. absurd (cc)))
        ])
      ]

without_token :
    (c : LifecycleClient) (command : LifecycleCommand) (managed : Bool)
    → c.require_v2 ≡ managed
    → Accepts c
        (record { command = command; token = none })
        (if managed then err tokens_required else ok true, c)
without_token c command true e = refused tokens_required
without_token c command false e = legacy refl e

accept_token-Accepts :
    (c : LifecycleClient) (command : LifecycleCommand) (token : Option AppToken)
    → Accepts c (record { command = command; token = token }) (accept_token c command token)
unfolding accept_token
accept_token-Accepts c command none = without_token c command c.require_v2 refl
accept_token-Accepts c command (some t) =
    elim (Bool-cases
      (not (text_eq t.app_id app_name) || t.generation == 0 || optional_eq t.lease_id (some 0))) [
        | inl bad ↦ rw bad (refused invalid_token)
        | inr good ↦ rw good (
            accept_active-Accepts c command t c.active_token refl (record {
              named = text_eq_sound t.app_id app_name (ground arith);
              started = λ z. ground arith;
            }))
      ]

-- Every answer to a frame is of one of four kinds: an error or a stale frame, the client unchanged; a
-- command without a token, which only a client that is not managed takes; or a token of this
-- application with a generation that is not zero, which becomes the active one and continues the
-- active one before it (same generation, and a later epoch or the same epoch under the same lease or
-- none). The first token of a managed client comes with `Start`, a foreground epoch and a lease.
pub accept_frame-Accepts :
    (c : LifecycleClient) (frame : DecodedCommand) → Accepts c frame (accept_frame c frame)
unfolding accept_frame
accept_frame-Accepts c frame = accept_token-Accepts c frame.command frame.token
