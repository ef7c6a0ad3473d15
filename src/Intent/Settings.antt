-- ===== src/Intent/Settings.antt =====
-- The session controls: handleUserCommand, handleSetModel and effectiveModel of internal/wsserver/middleware.go.
-- `reset_history` is the history's Reset, with its error.
use nomad_dev.Base.{
  ◌≡◌, ◌≢◌, refl, sym, ap, ◌∙◌, inl, inr, Bool, true, false, not, ◌||◌, List, [], ◌++◌, Option,
  none, some, Text, lit, text_eq, text_eq_iff, lookup, insert, delete, lookup-insert_self,
  lookup-insert_other, if◌then◌else◌, Result, ok, err, Bool-cases, arith,
}
use nomad_dev.History.Pins.{ReferenceBuffer, reset}

pub record UserCommand : Type 0 where
  pub action : Text
  pub model : Text

pub record Ack : Type 0 where
  pub action : Text
  pub error : Text
  pub message : Text
  pub model : Text

-- What is configured: `service` is false where the middleware is nil.
pub record Service : Type 0 where
  pub service : Bool
  pub has_history : Bool
  pub provider : Text
  pub model : Text
  pub is_known_model : Text → Text → Bool

-- modelOverrides, the pinned files, and the history, which is `W`.
pub record Sessions (W : Type 0) : Type 0 where
  pub model_overrides : List (Text × Text)
  pub pins : Option ReferenceBuffer
  pub history : W

unfoldable pub effective_model : {W : Type 0} → Service → Sessions W → Text → Text
effective_model v s sid =
    let default = if v.service then v.model else [] in
    elim (lookup sid s.model_overrides) [
      | none ↦ default
      | some m ↦ if text_eq m [] then default else m
    ]

module _ {W : Type 0} (v : Service) (reset_history : W → Text → W × Option Text) where
  abbrev nak : Text → Text → Text → Ack
  nak action error message = record {
    action = action;
    error = error;
    message = message;
    model = [];
  }

  unfoldable pub handle_set_model : Text → UserCommand → Sessions W → Sessions W × Ack
  handle_set_model sid p s =
      if not v.service || (text_eq v.provider [] || text_eq v.provider (lit "mock"))
      then (
        s,
        nak p.action (lit "not_implemented") (lit "model switching unsupported by this runtime"),
      )
      else if text_eq p.model []
      then (s, nak p.action (lit "bad_envelope") (lit "missing model"))
      else if not (v.is_known_model v.provider p.model)
      then (
        s,
        nak p.action (lit "bad_envelope")
            (lit "unknown model " ++ p.model ++ lit " for provider " ++ v.provider),
      )
      else (
        record s { model_overrides = insert sid p.model s.model_overrides },
        record {
          action = p.action;
          error = [];
          message = lit "model selection updated";
          model = p.model;
        },
      )

  abbrev pub reset_pins : Text → Option ReferenceBuffer → Option ReferenceBuffer
  reset_pins sid none = none
  reset_pins sid (some pins) = some (reset pins sid)

  unfoldable pub handle_reset : Text → UserCommand → Sessions W → Sessions W × Ack
  handle_reset sid p s =
      let (history, failed) = reset_history s.history sid in
      if not v.service || not v.has_history
      then (s, nak p.action (lit "not_implemented") (lit "history backend not configured"))
      else elim failed [
        | some msg ↦ (record s { history = history }, nak p.action (lit "internal") msg)
        | none ↦ (
          record {
            model_overrides = delete sid s.model_overrides;
            pins = reset_pins sid s.pins;
            history = history;
          },
          nak p.action [] (lit "history cleared"),
        )
      ]

  -- `decoded` is the payload, or the error of its decoding.
  unfoldable pub handle_user_command :
      Text → Result Text UserCommand → Sessions W → Sessions W × Ack
  unfolding handle_set_model handle_reset
  handle_user_command sid (err msg) s = (s, nak [] (lit "bad_envelope") msg)
  handle_user_command sid (ok p) s =
      if text_eq p.action (lit "reset_history")
      then handle_reset sid p s
      else if text_eq p.action (lit "set_model")
      then handle_set_model sid p s
      else (s, nak p.action (lit "unknown_action") (lit "unsupported action: " ++ p.action))

  -- A model that is set without an error.
  set_model-accepted :
      (sid : Text) (p : UserCommand) (s : Sessions W)
      → (handle_set_model sid p s).1.error ≡ []
      → ((handle_set_model sid p s).0
          ≡ record s { model_overrides = insert sid p.model s.model_overrides })
        × (text_eq p.model [] ≡ false)
  unfolding handle_set_model
  set_model-accepted sid p s fine =
      elim (Bool-cases
        (not v.service || (text_eq v.provider [] || text_eq v.provider (lit "mock")))) [
          | inl e ↦ absurd (cc (rw (handle_set_model, e) at fine))
          | inr e ↦ elim (Bool-cases (text_eq p.model [])) [
            | inl f ↦ absurd (cc (rw (handle_set_model, e, f) at fine))
            | inr f ↦ elim (Bool-cases (v.is_known_model v.provider p.model)) [
              | inl g ↦ (rw (handle_set_model, e, f, g) refl, f)
              | inr g ↦ absurd (cc (rw (handle_set_model, e, f, g) at fine))
            ]
          ]
        ]

  inserted_model :
      (sid m : Text) (s : Sessions W)
      → text_eq m [] ≡ false
      → effective_model v (record s { model_overrides = insert sid m s.model_overrides }) sid ≡ m
  unfolding effective_model
  inserted_model sid m s n =
      rw (effective_model, lookup-insert_self sid m s.model_overrides, n) refl

  other_model :
      (i j m : Text) (s : Sessions W)
      → i ≢ j
      → effective_model v (record s { model_overrides = insert i m s.model_overrides }) j
        ≡ effective_model v s j
  unfolding effective_model
  other_model i j m s n =
      rw
        (
          effective_model,
          lookup-insert_other i j m s.model_overrides (ground (arith, n, text_eq_iff i j)),
        )
        refl

  as_set_model :
      (sid : Text) (p : UserCommand) (s : Sessions W)
      → p.action ≡ lit "set_model"
      → handle_user_command sid (ok p) s ≡ handle_set_model sid p s
  unfolding handle_user_command text_eq
  as_set_model sid p s named =
      let not_reset : text_eq p.action (lit "reset_history") ≡ false =
        ap (λ a. text_eq a (lit "reset_history")) named in
      let is_set : text_eq p.action (lit "set_model") ≡ true =
        ap (λ a. text_eq a (lit "set_model")) named in
      rw (handle_user_command, not_reset, is_set) refl

  -- A command that names a model and is acknowledged without an error: the session's next turns use that model, and
  -- the model of every other session, the pinned files and the history stay.
  pub set_model-effective_model :
      (sid : Text) (p : UserCommand) (s : Sessions W)
      → p.action ≡ lit "set_model"
      → (handle_user_command sid (ok p) s).1.error ≡ []
      → let s' = (handle_user_command sid (ok p) s).0 in
        (effective_model v s' sid ≡ p.model)
        × ((other : Text) → sid ≢ other → effective_model v s' other ≡ effective_model v s other)
        × (s'.pins ≡ s.pins)
        × (s'.history ≡ s.history)
  set_model-effective_model sid p s named fine =
      let same = as_set_model sid p s named in
      let (made, nonempty) = set_model-accepted sid p s (sym (ap (λ r. r.1.error) same) ∙ fine) in
      let whole : (handle_user_command sid (ok p) s).0
          ≡ record s { model_overrides = insert sid p.model s.model_overrides } =
        ap (λ r. r.0) same ∙ made in
      rw whole (
        inserted_model sid p.model s nonempty,
        λ other n. other_model sid other p.model s n,
        refl,
        refl,
      )
