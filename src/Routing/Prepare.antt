-- ===== src/Routing/Prepare.antt =====
-- src/calinix/routing/prepare.rs: the context of a request. The clock and the counter give the id of a
-- request that brings none.
pub mod Requested
use mathlib.Core.Option
use calinix.Bitmap
use calinix.Hash.{Text, is_whitespace, prompt_to_cumulative_hashes_streaming}
use calinix.Http.{HeaderMaps}
use calinix.Prelude.Results.{Result, err, ok, ◌>>=◌}
use calinix.Protocol.{CalinixMode, single_mode, disaggregated_mode, request_id_name, mode_name}
use calinix.Protocol.OpenAi.{
  OpenAiRequestDto, OpenAiRoutingView, OpenAiParseError, parse_error_message, not_empty,
  extract_openai_routing_view,
}
use calinix.Routing.Score.{
  RoutingContext, RoutingError, invalid_mode, parse, no_candidates, missing_pod,
}
use calinix.Text.{same_text}
use calinix.Text.Literals.{chars, to_string, to_hex}
use calinix.Prelude.{
  ℕ, zero, suc, ◌+◌, ◌-◌, ◌*◌, ◌/◌, ◌%◌, ◌^◌, ◌≤◌, ◌<◌, min, max, ◌≡◌, refl, sym, ap, ap₂, ◌∙◌,
  subst, fun_ext, ◌≢◌, ◌↔◌, ◌⊎◌, inl, inr, Bool, true, false, not, ◌&&◌, ◌||◌, Option, none, some,
  List, [], ◌∷◌, ◌++◌, map, append_assoc, append-nil, arith, ltb, leb, ◌==◌, if◌then◌else◌, ltb→lt,
  lt→ltb, leb→le, ==_iff, ==_refl, tests, Bool-cases, Option-cases, length, get_elem?, get_or,
  set as set_elem, take, replicate, length-append, length-set, length-replicate, get_or-replicate,
  get_or-set, get_elem?-get_or, get_elem?-beyond, get_elem?-cases, get_elem?-left, get_elem?-last,
  get_or-beyond, lt_wf,
}

pub record PrepareInput (H : Type 0) : Type 0 where
  pub path : Text
  pub method : Text
  pub headers : H
  pub body : List ℕ

pub record PrepareStage : Type 0 where
  pub default_mode : CalinixMode
  pub block_size : ℕ

unfoldable pub trim_start : Text → Text
trim_start [] = []
trim_start (c ∷ cs) = if is_whitespace c then trim_start cs else c ∷ cs

unfoldable pub trim_end : Text → Text
trim_end [] = []
trim_end (c ∷ cs) = elim (trim_end cs) [
  | [] ↦ if is_whitespace c then [] else c ∷ []
  | x ∷ xs ↦ c ∷ x ∷ xs
]

-- `trim().to_ascii_lowercase()`
unfoldable pub to_ascii_lowercase : Text → Text
to_ascii_lowercase [] = []
to_ascii_lowercase (c ∷ cs) = (if leb 65 c && leb c 90 then c + 32 else c) ∷ to_ascii_lowercase cs

-- The match on the mode's name.
unfoldable pub mode_from : Text → Result RoutingError (Option CalinixMode)
mode_from mode =
    if same_text mode (chars "single")
    then ok (some single_mode)
    else if same_text mode (chars "disaggregated") || same_text mode (chars "dispatch")
    then ok (some disaggregated_mode)
    else err (invalid_mode mode)

-- The id that the clock and the counter give, with the next value of the counter, which wraps
-- around.
unfoldable pub new_request_id : ℕ → ℕ → Text × ℕ
new_request_id nanos counter =
    (chars "calinix-" ++ (to_hex nanos ++ (chars "-" ++ to_hex counter)), (counter + 1) % 2 ^ 64)

unfoldable pub cache_namespace : Option Text → ℕ → Text
cache_namespace model block_size =
    chars "openai:"
    ++ (Option.get_or model (chars "unknown")
        ++ (chars ":whitespace-v1:block-" ++ to_string block_size))

module _ {H V : Type 0} (hm : HeaderMaps H V) where
  unfoldable pub requested_mode : H → Result RoutingError (Option CalinixMode)
  requested_mode headers = elim (hm.get headers mode_name) [
    | none ↦ ok none
    | some value ↦ elim (hm.to_str value) [
      | none ↦ err (invalid_mode (chars "<non-utf8>"))
      | some mode ↦ mode_from (to_ascii_lowercase (trim_end (trim_start mode)))
    ]
  ]

  -- The header's value, where it is a text that is not empty.
  unfoldable pub given_request_id : H → Option Text
  given_request_id headers = elim (hm.get headers request_id_name) [
    | none ↦ none
    | some value ↦ not_empty (hm.to_str value)
  ]

  -- The id, and the counter after it.
  unfoldable pub request_id : ℕ → ℕ → H → Text × ℕ
  request_id nanos counter headers = elim (given_request_id headers) [
    | none ↦ new_request_id nanos counter
    | some id ↦ (id, counter)
  ]

-- The message of an error, for which the JSON parser's own text is a parameter.
unfoldable pub routing_error_message : Text → RoutingError → Text
unfolding parse_error_message
routing_error_message cause (invalid_mode mode) = chars "invalid routing mode: " ++ mode
routing_error_message cause (parse e) = parse_error_message cause e
routing_error_message cause no_candidates = chars "no routing candidates available"
routing_error_message cause (missing_pod pod_id) =
    chars "selected pod " ++ (to_string pod_id ++ chars " is not in the catalog")

-- `From<OpenAiParseError> for RoutingError`
unfoldable pub from_parse_error : {A : Type 0} → Result OpenAiParseError A → Result RoutingError A
from_parse_error (err e) = err (parse e)
from_parse_error (ok a) = ok a

-- The context of a request, of its parts.
unfoldable pub context_of :
    {H : Type 0} → PrepareInput H → ℕ → CalinixMode → Text → OpenAiRoutingView → RoutingContext
context_of input block_size mode id openai = record {
  request_id = id;
  path = input.path;
  method = input.method;
  mode = mode;
  openai = openai;
  cumulative_hashes = prompt_to_cumulative_hashes_streaming openai.prompt_text block_size;
  cache_namespace = cache_namespace openai.model block_size;
  candidate_single = Bitmap.empty;
  candidate_prefill = Bitmap.empty;
  candidate_decode = Bitmap.empty;
}

module _ {H V : Type 0} (hm : HeaderMaps H V) (from_slice : List ℕ → Option OpenAiRequestDto) where
  -- The context, and the counter after it; an error leaves the counter alone.
  unfoldable pub run :
      PrepareStage → ℕ → ℕ → PrepareInput H → Result RoutingError (RoutingContext × ℕ)
  run stage nanos counter input = do
    openai ←
        from_parse_error
          (extract_openai_routing_view hm from_slice input.path input.headers input.body)
    mode ← requested_mode hm input.headers
    ok (
      context_of input (max stage.block_size 1) (Option.get_or mode stage.default_mode)
          (request_id hm nanos counter input.headers).0 openai,
      (request_id hm nanos counter input.headers).1,
    )
