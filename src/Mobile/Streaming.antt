-- ===== src/Mobile/Streaming.antt =====
-- Lemmas about the assistant chunks of Ingest in internal/mobile/state/ingest.go.
use nomad_dev.Base.{
  ℕ, ◌≡◌, refl, ap, sym, ◌∙◌, ◌≢◌, false, List, [], ◌∷◌, ◌++◌, map, append_assoc, append-nil,
  Option, none, some, arith, Text, lit, text_eq, text_eq_iff, if◌then◌else◌, Bool-cases, inl, inr,
}
use mathlib.Core.Option
use nomad_dev.Event.{Envelope}
use nomad_dev.Mobile.State.{State, Turn}
use nomad_dev.Mobile.Turns.{at_turn, modify_turn}
use nomad_dev.Mobile.Ingest.{
  Decoders, put_turns, apply_assistant_chunk, kind_of, dispatch, ingest, ingest_all,
}

-- The turn of an intent, the first one.
unfoldable pub turn_at : Text → List Turn → Option Turn
turn_at id [] = none
turn_at id (t ∷ ts) = if text_eq t.intent_id id then some t else turn_at id ts

abbrev append_text : Text → Turn → Turn
append_text text t = record t { assistant_text = t.assistant_text ++ text }

abbrev turns_or : List Turn → Option (List Turn) → List Turn
turns_or old none = old
turns_or old (some new) = new

turns_or-cons :
    (j : Text) (t : Turn) (ts : List Turn) (r : Option (List Turn))
    → turn_at j (turns_or (t ∷ ts) (elim r [ none ↦ none | some ts' ↦ some (t ∷ ts') ]))
      ≡ (if text_eq t.intent_id j then some t else turn_at j (turns_or ts r))
unfolding turn_at
turns_or-cons j t ts none = refl
turns_or-cons j t ts (some ts') = refl

turn_at-at_turn :
    (id text : Text) (ts : List Turn) (t : Turn)
    → turn_at id ts ≡ some t
    → turn_at id (turns_or ts (at_turn id (append_text text) ts)) ≡ some (append_text text t)
unfolding turn_at at_turn
turn_at-at_turn id text [] t h = absurd (cc)
turn_at-at_turn id text (u ∷ ts) t h = elim (Bool-cases (text_eq u.intent_id id)) [
  | inl e ↦ rw (e, e) (ap (λ u. Option.map (append_text text) u) (rw e at h))
  | inr e ↦ rw (e) (turns_or-cons id u ts _ ∙ rw e (turn_at-at_turn id text ts t (rw e at h)))
]

turn_at-at_turn_other :
    (id j text : Text) (ts : List Turn)
    → text_eq id j ≡ false
    → turn_at j (turns_or ts (at_turn id (append_text text) ts)) ≡ turn_at j ts
unfolding turn_at at_turn
turn_at-at_turn_other id j text [] h = refl
turn_at-at_turn_other id j text (u ∷ ts) h = elim (Bool-cases (text_eq u.intent_id id)) [
  | inl e ↦
      let differs : text_eq u.intent_id j ≡ false =
        ground (arith, text_eq_iff u.intent_id id, text_eq_iff u.intent_id j, text_eq_iff id j) in
      rw (e, differs) refl
  | inr e ↦ rw (e) (
      turns_or-cons j u ts _
      ∙ ap (λ r. if text_eq u.intent_id j then some u else r)
          (turn_at-at_turn_other id j text ts h))
]

abbrev say : Option Text → Turn → Turn
say none t = t
say (some text) t = append_text text t

say_on :
    (p : Option Text) (t : Turn) (rest : Text)
    → record (say p t) { assistant_text = (say p t).assistant_text ++ rest } ≡ record t {
      assistant_text = t.assistant_text ++ elim p [ none ↦ rest | some text ↦ text ++ rest ];
    }
say_on none t rest = refl
say_on (some text) t rest =
    ap (λ s. record t { assistant_text = s }) (append_assoc t.assistant_text text rest)

-- An assistant.chunk envelope of one intent.
abbrev pub chunk_for : Text → ℕ × Text × Text → ℕ × Envelope
chunk_for id (now, env_id, payload) = (
  now,
  record { id = env_id; typ = lit "assistant.chunk"; correlation_id = id; payload = payload },
)

module _ {F : Type 0} (add_f : F → F → F) (decode : Decoders F) where
  -- What the chunks say, one behind the other; a payload that does not decode says nothing.
  abbrev pub texts : List (ℕ × Text × Text) → Text
  texts [] = []
  texts ((now, env_id, payload) ∷ parts) = elim (decode.assistant_chunk payload) [
    | none ↦ texts parts
    | some text ↦ text ++ texts parts
  ]

  turns-put : (st : State F) (r : Option (List Turn)) → (put_turns st r).turns ≡ turns_or st.turns r
  turns-put st none = refl
  turns-put st (some ts) = refl

  chunk-turn_at :
      (st : State F) (id : Text) (p : Option Text) (t : Turn)
      → text_eq id [] ≡ false
      → turn_at id st.turns ≡ some t
      → turn_at id (apply_assistant_chunk st id p).turns ≡ some (say p t)
  unfolding apply_assistant_chunk modify_turn
  chunk-turn_at st id none t n h = h
  chunk-turn_at st id (some text) t n h =
      rw (n, turns-put st (at_turn id (append_text text) st.turns))
        (turn_at-at_turn id text st.turns t h)

  chunk-turn_at_other :
      (st : State F) (id j : Text) (p : Option Text)
      → text_eq id j ≡ false
      → turn_at j (apply_assistant_chunk st id p).turns ≡ turn_at j st.turns
  unfolding apply_assistant_chunk modify_turn
  chunk-turn_at_other st id j none h = refl
  chunk-turn_at_other st id j (some text) h = elim (Bool-cases (text_eq id [])) [
    | inl e ↦ rw e refl
    | inr e ↦
        rw (e, turns-put st (at_turn id (append_text text) st.turns))
          (turn_at-at_turn_other id j text st.turns h)
  ]

  ingest-chunk :
      (st : State F) (id : Text) (now : ℕ) (env_id payload : Text)
      → (ingest add_f decode now (chunk_for id (now, env_id, payload)).1 st).turns
        ≡ (apply_assistant_chunk
            (record st { last_event_id = env_id })
            id
            (decode.assistant_chunk payload)).turns
  unfolding ingest dispatch kind_of text_eq
  ingest-chunk st id now env_id payload = refl

  -- While the chunks of an intent arrive, its turn shows what it showed before with all their texts
  -- behind it, in order, and nothing else of the turn changes; the turns of other intents do not change.
  pub ingest_all-chunks :
      (id : Text) (parts : List (ℕ × Text × Text)) (st : State F) (t : Turn) (j : Text)
      → id ≢ []
      → turn_at id st.turns ≡ some t
      → j ≢ id
      → let st' = ingest_all add_f decode (map (chunk_for id) parts) st in
        (turn_at id st'.turns
          ≡ some (record t { assistant_text = t.assistant_text ++ texts parts }))
        × (turn_at j st'.turns ≡ turn_at j st.turns)
  unfolding ingest_all
  ingest_all-chunks id [] st t j n h d = (
    h ∙ ap (λ s. some (record t { assistant_text = s })) (sym (append-nil t.assistant_text)),
    refl,
  )
  ingest_all-chunks id ((now, env_id, payload) ∷ parts) st t j n h d =
      let p = decode.assistant_chunk payload in
      let st0 = record st { last_event_id = env_id } in
      let same = ingest-chunk st id now env_id payload in
      let there =
        ap (turn_at id) same ∙ chunk-turn_at st0 id p t (ground (arith, text_eq_iff id [])) h in
      let (grown, kept) = ingest_all-chunks id parts _ (say p t) j n there d in
      (
        grown ∙ ap some (say_on p t (texts parts)),
        kept
            ∙ ap (turn_at j) same
            ∙ chunk-turn_at_other st0 id j p (ground (arith, text_eq_iff id j)),
      )
