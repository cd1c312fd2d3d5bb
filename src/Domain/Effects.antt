-- ===== src/Domain/Effects.antt =====
-- src/domain.rs: the effects of `reduce` against the page that carries them out.
use riddle.Prelude.{
  ◌≡◌, refl, sym, ap, ◌∙◌, Bool, true, false, not, ◌&&◌, Option, none, some, List, [], ◌∷◌, ◌++◌,
  if◌then◌else◌,
}
use riddle.Domain.{
  Priority, maintenance, automatic_output, user_input, requested_output, lifecycle_work, Lifecycle,
  in_foreground, in_background, Model, AppEvent, enter_foreground, enter_background, output_started,
  output_finished, user_input_started, user_input_finished, automatic_output_ready, Effect,
  acquire_foreground, release_foreground, cancel_output, clear_transient_output,
  start_automatic_output, defer_automatic_output, is_foreground, is_automatic, cancelled, preempt,
  reduce, foreground,
}

-- What the device shows: who owns the page, and the output that runs on it.
pub record Page : Type 0 where
  pub owned : Bool
  pub running : Option Priority

-- Whether two priorities are the same.
unfoldable pub same : Priority → Priority → Bool
same maintenance maintenance = true
same automatic_output automatic_output = true
same user_input user_input = true
same requested_output requested_output = true
same lifecycle_work lifecycle_work = true
same a b = false

unfoldable pub runs : Priority → Option Priority → Bool
runs p none = false
runs p (some q) = same p q

unfoldable pub is_idle : Option Priority → Bool
is_idle none = true
is_idle (some q) = false

-- No output, or automatic output: what automatic output may take the place of.
unfoldable pub yields : Option Priority → Bool
unfolding is_automatic
yields none = true
yields (some q) = is_automatic q

-- One effect, where it is legal: only a page that is not owned is acquired, only an idle one is
-- released, only the output that runs is cancelled, and automatic output starts only on an owned page
-- on which no other output runs.
unfoldable pub carry_out : Page → Effect → Option Page
carry_out page acquire_foreground =
    if not page.owned then some (record page { owned = true }) else none
carry_out page release_foreground =
    if page.owned && is_idle page.running then some (record page { owned = false }) else none
carry_out page (cancel_output priority) =
    if runs priority page.running then some (record page { running = none }) else none
carry_out page clear_transient_output = if is_idle page.running then some page else none
carry_out page start_automatic_output =
    if page.owned && yields page.running
    then some (record page { running = some automatic_output })
    else none
carry_out page defer_automatic_output = some page

unfoldable pub carry_out_next : Option Page → Effect → Option Page
carry_out_next none effect = none
carry_out_next (some page) effect = carry_out page effect

unfoldable pub carry_out_all : Option Page → List Effect → Option Page
carry_out_all page [] = page
carry_out_all page (effect ∷ effects) = carry_out_all (carry_out_next page effect) effects

-- The page as the model believes it to be.
unfoldable pub page_of : Model → Page
unfolding is_foreground
page_of model = record { owned = is_foreground model.lifecycle; running = model.active_output }

same_refl : (p : Priority) → same p p ≡ true
unfolding same
same_refl maintenance = refl
same_refl automatic_output = refl
same_refl user_input = refl
same_refl requested_output = refl
same_refl lifecycle_work = refl

cancelled-carry_out :
    (owned : Bool) (o : Option Priority) (effects : List Effect)
    → carry_out_all (some (record { owned = owned; running = o })) (cancelled o ++ effects)
      ≡ carry_out_all (some (record { owned = owned; running = none })) effects
unfolding carry_out carry_out_next carry_out_all cancelled runs is_idle
cancelled-carry_out owned none effects = refl
cancelled-carry_out owned (some p) effects = rw (same_refl p) refl

some_eq : {A : Type 0} {a b : A} → some a ≡ some b → a ≡ b
some_eq h = cc

preempt-carry_out :
    (model : Model) (o : Option Priority)
    → model.active_output ≡ o
    → carry_out_all (some (page_of model)) (preempt model o).1 ≡ some (page_of (preempt model o).0)
unfolding preempt carry_out_all page_of is_automatic cancelled carry_out carry_out_next runs same
    is_idle is_foreground
preempt-carry_out model none e = refl
preempt-carry_out model (some maintenance) e = refl
preempt-carry_out model (some automatic_output) e = rw e refl
preempt-carry_out model (some user_input) e = refl
preempt-carry_out model (some requested_output) e = refl
preempt-carry_out model (some lifecycle_work) e = refl

-- The events that report what an output has done by itself. The others ask for a decision.
unfoldable pub is_report : AppEvent → Bool
is_report (output_started priority) = true
is_report output_finished = true
is_report event = false

abbrev Carried : Model → AppEvent → Type 0
Carried model event =
    carry_out_all (some (page_of model)) (reduce model event).1
    ≡ some (page_of (reduce model event).0)

automatic_output_ready-Carried :
    (o : Option Priority) (b : Bool)
    → yields o ≡ true
    → Carried
        (record { lifecycle = in_foreground; active_output = o; user_input_active = b })
        automatic_output_ready
unfolding reduce page_of carry_out_all carry_out_next carry_out is_foreground
automatic_output_ready-Carried o true h = refl
automatic_output_ready-Carried o false h = rw h refl

reduce-Carried :
    (l : Lifecycle) (o : Option Priority) (b : Bool) (event : AppEvent)
    → is_report event ≡ false
    → (event ≡ automatic_output_ready → yields o ≡ true)
    → Carried (record { lifecycle = l; active_output = o; user_input_active = b }) event
unfolding reduce page_of carry_out_all carry_out_next carry_out is_foreground is_idle is_report
reduce-Carried in_foreground o b enter_foreground r h = refl
reduce-Carried in_background o b enter_foreground r h = refl
reduce-Carried in_foreground o b enter_background r h =
    cancelled-carry_out true o (release_foreground ∷ [])
reduce-Carried in_background o b enter_background r h = refl
reduce-Carried l o b (output_started p) r h = cc
reduce-Carried l o b output_finished r h = cc
reduce-Carried l o b user_input_started r h = preempt-carry_out _ o refl
reduce-Carried l o b user_input_finished r h = refl
reduce-Carried in_foreground o b automatic_output_ready r h =
    automatic_output_ready-Carried o b (h refl)
reduce-Carried in_background o b automatic_output_ready r h = refl

-- A life of the policy beside the page. Output starts by itself only on an owned page that the pen
-- does not touch, and automatic output becomes ready only while no other output runs; for the rest any
-- event may come, and the page carries the effects out.
pub data Session : Model → Page → Type 0 where
  opened : Session foreground (record { owned = true; running = none })
  started :
      {model : Model} {page : Page} (priority : Priority)
      → Session model page
      → page.owned ≡ true
      → model.user_input_active ≡ false
      → Session (reduce model (output_started priority)).0 (record page { running = some priority })
  finished :
      {model : Model} {page : Page}
      → Session model page
      → Session (reduce model output_finished).0 (record page { running = none })
  decides :
      {model : Model} {page after : Page} (event : AppEvent)
      → Session model page
      → is_report event ≡ false
      → (event ≡ automatic_output_ready → yields page.running ≡ true)
      → carry_out_all (some page) (reduce model event).1 ≡ some after
      → Session (reduce model event).0 after

started-page :
    (model : Model) (page : Page) (p : Priority)
    → page ≡ page_of model
    → page.owned ≡ true
    → model.user_input_active ≡ false
    → record page { running = some p } ≡ page_of (reduce model (output_started p)).0
unfolding reduce page_of is_foreground
started-page model page p shows owned free =
    let shown : is_foreground model.lifecycle ≡ true = sym (ap (λ q. q.owned) shows) ∙ owned in
    rw (shows, shown, free) (rw shown refl)

decision-page :
    (model : Model) (page : Page) (event : AppEvent)
    → page ≡ page_of model
    → is_report event ≡ false
    → (event ≡ automatic_output_ready → yields page.running ≡ true)
    → carry_out_all (some page) (reduce model event).1 ≡ some (page_of (reduce model event).0)
unfolding page_of
decision-page model page event shows r h =
    ap (λ q. carry_out_all (some q) (reduce model event).1) shows
    ∙ reduce-Carried model.lifecycle model.active_output model.user_input_active event r
        (λ e. ap (λ q. yields q.running) (sym shows) ∙ h e)

finished-page :
    (model : Model) (page : Page)
    → page ≡ page_of model
    → record page { running = none } ≡ page_of (reduce model output_finished).0
unfolding reduce page_of
finished-page model page shows = ap {A = Page} (λ q. record q { running = none }) shows

Session-page : {model : Model} {page : Page} → Session model page → page ≡ page_of model
unfolding page_of is_foreground
Session-page opened = refl
Session-page (started {model} {page} p s owned free) =
    started-page model page p (Session-page s) owned free
Session-page (finished {model} {page} s) = finished-page model page (Session-page s)
Session-page (decides {model} {page} event s r h e) =
    some_eq (sym e ∙ decision-page model page event (Session-page s) r h)

-- In a life of the policy beside the page that carries its effects out, where output starts by itself
-- only on an owned page that the pen does not touch and automatic output becomes ready only while no
-- other output runs: the page is always the one that the model tells of, and whichever decision is
-- asked for next, each of its effects is legal on the page that the effects before it leave: no
-- acquisition of an owned page, no release of a page that is not owned or not idle, no cancellation of
-- output that does not run, no automatic output over other output or on a page that is not owned.
pub reduce-carry_out :
    {model : Model} {page : Page}
    → Session model page
    → (event : AppEvent) → is_report event ≡ false
    → (event ≡ automatic_output_ready → yields page.running ≡ true)
    → (page ≡ page_of model)
      × (carry_out_all (some page) (reduce model event).1 ≡ some (page_of (reduce model event).0))
reduce-carry_out {model} {page} s event r h =
    (Session-page s, decision-page model page event (Session-page s) r h)
