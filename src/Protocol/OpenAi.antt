-- ===== src/Protocol/OpenAi.antt =====
-- src/calinix/protocol/openai.rs: what the router reads of an OpenAI-compatible request. The JSON parser
-- is a parameter.
pub mod Views
use mathlib.Core.Option
use calinix.Hash.{Text}
use calinix.Http.{HeaderMaps}
use calinix.Prelude.Results.{Result, err, ok, ◌>>=◌}
use calinix.Text.{same_text}
use calinix.Text.Literals.{chars, is_empty}
use calinix.Prelude.{
  ℕ, zero, suc, ◌+◌, ◌-◌, ◌*◌, ◌/◌, ◌%◌, ◌^◌, ◌≤◌, ◌<◌, min, max, ◌≡◌, refl, sym, ap, ap₂, ◌∙◌,
  subst, fun_ext, ◌≢◌, ◌↔◌, ◌⊎◌, inl, inr, Bool, true, false, not, ◌&&◌, ◌||◌, Option, none, some,
  List, [], ◌∷◌, ◌++◌, map, append_assoc, append-nil, arith, ltb, leb, ◌==◌, if◌then◌else◌, ltb→lt,
  lt→ltb, leb→le, ==_iff, ==_refl, tests, Bool-cases, Option-cases, length, get_elem?, get_or,
  set as set_elem, take, replicate, length-append, length-set, length-replicate, get_or-replicate,
  get_or-set, get_elem?-get_or, get_elem?-beyond, get_elem?-cases, get_elem?-left, get_elem?-last,
  get_or-beyond, lt_wf,
}

abbrev pub session_key_name : Text
session_key_name = chars "x-calinix-session-key"

pub data OpenAiRequestKind : Type 0 where
  chat_completions : OpenAiRequestKind
  completions : OpenAiRequestKind
  embeddings : OpenAiRequestKind
  unknown : OpenAiRequestKind

pub record OpenAiRoutingView : Type 0 where
  pub kind : OpenAiRequestKind
  pub model : Option Text
  pub prompt_text : Text
  pub session_key : Option Text
  pub stream : Bool

-- The JSON parser's own error is left out.
pub data OpenAiParseError : Type 0 where
  invalid_json : OpenAiParseError
  invalid_shape : Text → OpenAiParseError

-- The message of an error; the JSON parser's own text is a parameter.
unfoldable pub parse_error_message : Text → OpenAiParseError → Text
parse_error_message cause invalid_json = chars "invalid OpenAI-compatible JSON body: " ++ cause
parse_error_message cause (invalid_shape message) =
    chars "invalid OpenAI-compatible request: " ++ message

pub data MessageContentDto : Type 0 where
  text_content : Text → MessageContentDto
  other_content : MessageContentDto

pub record MessageDto : Type 0 where
  pub content : Option MessageContentDto

pub data PromptDto : Type 0 where
  text_prompt : Text → PromptDto
  array_prompt : List Text → PromptDto
  other_prompt : PromptDto

pub record OpenAiRequestDto : Type 0 where
  pub model : Option Text
  pub stream : Bool
  pub user : Option Text
  pub messages : Option (List MessageDto)
  pub prompt : Option PromptDto
  pub input : Option PromptDto

abbrev pub default_request : OpenAiRequestDto
default_request = record {
  model = none;
  stream = false;
  user = none;
  messages = none;
  prompt = none;
  input = none;
}

-- `path.split('?').next()`
unfoldable pub before_query : Text → Text
before_query [] = []
before_query (c ∷ cs) = let rest = before_query cs in if c == 63 then [] else c ∷ rest

unfoldable pub request_kind : Text → OpenAiRequestKind
unfolding before_query
request_kind path =
    if same_text (before_query path) (chars "/v1/chat/completions")
    then chat_completions
    else if same_text (before_query path) (chars "/v1/completions")
    then completions
    else if same_text (before_query path) (chars "/v1/embeddings")
    then embeddings
    else unknown

-- `parts.join("\n")`
unfoldable pub join_lines : List Text → Text
join_lines [] = []
join_lines (t ∷ []) = t
join_lines (t ∷ u ∷ ts) = t ++ 10 ∷ join_lines (u ∷ ts)

-- The texts among the contents of the messages.
unfoldable pub text_parts : List MessageDto → List Text
text_parts [] = []
text_parts (message ∷ messages) = elim message.content [
  | none ↦ text_parts messages
  | some content ↦ elim content [
    | text_content text ↦ text ∷ text_parts messages
    | other_content ↦ text_parts messages
  ]
]

unfoldable pub extract_chat_prompt : Option (List MessageDto) → Result OpenAiParseError Text
extract_chat_prompt none = err (invalid_shape (chars "chat completions require messages[]"))
extract_chat_prompt (some messages) = ok (join_lines (text_parts messages))

unfoldable pub extract_completion_prompt : Option PromptDto → Result OpenAiParseError Text
extract_completion_prompt none = err (invalid_shape (chars "completions require prompt"))
extract_completion_prompt (some (text_prompt text)) = ok text
extract_completion_prompt (some (array_prompt items)) = ok (join_lines items)
extract_completion_prompt (some other_prompt) =
    err (invalid_shape (chars "prompt must be a string or string array"))

unfoldable pub extract_embedding_input : Option PromptDto → Result OpenAiParseError Text
extract_embedding_input none = err (invalid_shape (chars "embeddings require input"))
extract_embedding_input (some (text_prompt text)) = ok text
extract_embedding_input (some (array_prompt items)) = ok (join_lines items)
extract_embedding_input (some other_prompt) =
    err (invalid_shape (chars "embedding input must be a string or string array"))

-- The match on the kind.
unfoldable pub extract_prompt : OpenAiRequestKind → OpenAiRequestDto → Result OpenAiParseError Text
extract_prompt chat_completions dto = extract_chat_prompt dto.messages
extract_prompt completions dto = extract_completion_prompt dto.prompt
extract_prompt embeddings dto = extract_embedding_input dto.input
extract_prompt unknown dto = ok []

-- `filter(|value| !value.is_empty())`
unfoldable pub not_empty : Option Text → Option Text
not_empty none = none
not_empty (some value) = if is_empty value then none else some value

-- `or_else`
unfoldable pub or_else : Option Text → Option Text → Option Text
or_else none other = other
or_else (some value) other = some value

module _ {H V : Type 0} (hm : HeaderMaps H V) where
  unfoldable pub session_key_header : H → Option Text
  session_key_header headers = elim (hm.get headers session_key_name) [
    | none ↦ none
    | some value ↦ not_empty (hm.to_str value)
  ]

unfoldable pub parse_body :
    (List ℕ → Option OpenAiRequestDto) → List ℕ → Result OpenAiParseError OpenAiRequestDto
parse_body from_slice [] = ok default_request
parse_body from_slice (b ∷ body) = elim (from_slice (b ∷ body)) [
  | none ↦ err invalid_json
  | some dto ↦ ok dto
]

module _ {H V : Type 0} (hm : HeaderMaps H V) where
  unfoldable pub view_of : OpenAiRequestKind → H → OpenAiRequestDto → Text → OpenAiRoutingView
  view_of kind headers dto prompt_text = record {
    kind = kind;
    model = dto.model;
    prompt_text = prompt_text;
    session_key = or_else (session_key_header hm headers) (not_empty dto.user);
    stream = dto.stream;
  }

module _ {H V : Type 0} (hm : HeaderMaps H V) (from_slice : List ℕ → Option OpenAiRequestDto) where
  -- The rest of the function, for the kinds that are known.
  unfoldable pub known_view :
      OpenAiRequestKind → H → List ℕ → Result OpenAiParseError OpenAiRoutingView
  known_view kind headers body = do
    dto ← parse_body from_slice body
    prompt_text ← extract_prompt kind dto
    ok (view_of hm kind headers dto prompt_text)

  -- The function, for the kind of its path.
  unfoldable pub view_for :
      OpenAiRequestKind → H → List ℕ → Result OpenAiParseError OpenAiRoutingView
  view_for unknown headers body = ok (record {
    kind = unknown;
    model = none;
    prompt_text = [];
    session_key = session_key_header hm headers;
    stream = false;
  })
  view_for chat_completions headers body = known_view chat_completions headers body
  view_for completions headers body = known_view completions headers body
  view_for embeddings headers body = known_view embeddings headers body

  unfoldable pub extract_openai_routing_view :
      Text → H → List ℕ → Result OpenAiParseError OpenAiRoutingView
  extract_openai_routing_view path headers body = view_for (request_kind path) headers body
