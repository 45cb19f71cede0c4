-- ===== src/Protocol/OpenAi/Views.antt =====
-- Which requests the router can read, and what their views hold.
use calinix.Hash.{Text}
use calinix.Http.{HeaderMaps}
use calinix.Prelude.Results.{ok, bind-ok, ok-injective}
use calinix.Protocol.OpenAi.{
  OpenAiRequestKind, chat_completions, completions, embeddings, unknown, OpenAiRoutingView,
  OpenAiParseError, MessageDto, PromptDto, text_prompt, array_prompt, other_prompt,
  OpenAiRequestDto, request_kind, extract_prompt, not_empty, or_else, session_key_header,
  session_key_name, parse_body, view_of, known_view, view_for, extract_openai_routing_view,
}
use calinix.Text.Literals.{is_empty}
use calinix.Prelude.{
  ℕ, ◌≡◌, refl, subst, inl, inr, false, Option, none, some, List, arith, Bool-cases, Option-cases,
}

-- A prompt that is a text or a list of texts.
abbrev pub IsText : Option PromptDto → Type 0
IsText none = ⊥
IsText (some (text_prompt text)) = Unit {0}
IsText (some (array_prompt items)) = Unit {0}
IsText (some other_prompt) = ⊥

abbrev pub IsGiven : Option (List MessageDto) → Type 0
IsGiven none = ⊥
IsGiven (some messages) = Unit {0}

-- The field that the kind of the request needs.
abbrev pub HasPrompt : OpenAiRequestKind → OpenAiRequestDto → Type 0
HasPrompt chat_completions dto = IsGiven dto.messages
HasPrompt completions dto = IsText dto.prompt
HasPrompt embeddings dto = IsText dto.input
HasPrompt unknown dto = Unit {0}

module _ {H V : Type 0} (hm : HeaderMaps H V) (from_slice : List ℕ → Option OpenAiRequestDto) where
  -- A body that is empty or parsed, with the field that the kind needs.
  abbrev pub IsReadable : OpenAiRequestKind → List ℕ → Type 0
  IsReadable unknown body = Unit {0}
  IsReadable kind body =
      (dto : OpenAiRequestDto) × (parse_body from_slice body ≡ ok dto) × HasPrompt kind dto

  not_empty-some : (t : Option Text) (key : Text) → not_empty t ≡ some key → is_empty key ≡ false
  unfolding not_empty
  not_empty-some none key h = absurd (ground arith)
  not_empty-some (some value) key h = elim (Bool-cases (is_empty value)) [
    | inl empty ↦ absurd (ground arith)
    | inr given ↦ ground arith
  ]

  session_key_header-some :
      (headers : H) (key : Text) → session_key_header hm headers ≡ some key → is_empty key ≡ false
  unfolding session_key_header
  session_key_header-some headers key h = elim (Option-cases (hm.get headers session_key_name)) [
    | inl missing ↦ absurd (ground arith)
    | inr (value, found) ↦ not_empty-some (hm.to_str value) key (ground arith)
  ]

  -- What a view says of its request: the kind, and a session key that the header decides.
  abbrev pub IsViewOf : OpenAiRequestKind → H → OpenAiRoutingView → Type 0
  IsViewOf kind headers view =
      (view.kind ≡ kind)
      × ((key : Text) → session_key_header hm headers ≡ some key → view.session_key ≡ some key)
      × ((key : Text) → view.session_key ≡ some key → is_empty key ≡ false)

  or_else-some :
      (first : Option Text) (user : Option Text) (key : Text)
      → ((k : Text) → first ≡ some k → is_empty k ≡ false)
      → or_else first (not_empty user) ≡ some key
      → is_empty key ≡ false
  unfolding or_else
  or_else-some none user key given h = not_empty-some user key h
  or_else-some (some k) user key given h = given key h

  or_else-first :
      (first : Option Text) (other : Option Text) (key : Text)
      → first ≡ some key
      → or_else first other ≡ some key
  unfolding or_else
  or_else-first first other key h = rw (h, or_else)

  view_of-IsViewOf :
      (kind : OpenAiRequestKind) (headers : H) (dto : OpenAiRequestDto) (text : Text)
      → IsViewOf kind headers (view_of hm kind headers dto text)
  unfolding view_of
  view_of-IsViewOf kind headers dto text = (
    refl,
    λ key h. or_else-first (session_key_header hm headers) (not_empty dto.user) key h,
    λ key h.
        or_else-some (session_key_header hm headers) dto.user key (session_key_header-some headers)
          h,
  )

  known_view-IsViewOf :
      (kind : OpenAiRequestKind) (headers : H) (body : List ℕ) (view : OpenAiRoutingView)
      → known_view hm from_slice kind headers body ≡ ok view
      → IsViewOf kind headers view
  unfolding known_view
  known_view-IsViewOf kind headers body view h =
      let (dto, parsed, rest) = bind-ok (parse_body from_slice body) _ view h in
      let (text, prompted, same) = bind-ok (extract_prompt kind dto) _ view rest in
      subst (IsViewOf kind headers) (ok-injective {E = OpenAiParseError} same)
        (view_of-IsViewOf kind headers dto text)

  view_for-IsViewOf :
      (kind : OpenAiRequestKind) (headers : H) (body : List ℕ) (view : OpenAiRoutingView)
      → view_for hm from_slice kind headers body ≡ ok view
      → IsViewOf kind headers view
  unfolding view_for
  view_for-IsViewOf unknown headers body view h =
      subst (IsViewOf unknown headers) (ok-injective {E = OpenAiParseError} h)
        (refl, λ key k. k, session_key_header-some headers)
  view_for-IsViewOf chat_completions headers body view h =
      known_view-IsViewOf chat_completions headers body view h
  view_for-IsViewOf completions headers body view h =
      known_view-IsViewOf completions headers body view h
  view_for-IsViewOf embeddings headers body view h =
      known_view-IsViewOf embeddings headers body view h

  -- A view that is extracted has the kind of the path. Its session key is that of the header, where
  -- the header gives one, and never the empty text.
  pub extract_openai_routing_view-IsViewOf :
      (path : Text) (headers : H) (body : List ℕ) (view : OpenAiRoutingView)
      → extract_openai_routing_view hm from_slice path headers body ≡ ok view
      → IsViewOf (request_kind path) headers view
  unfolding extract_openai_routing_view
  extract_openai_routing_view-IsViewOf path headers body view h =
      view_for-IsViewOf (request_kind path) headers body view h
