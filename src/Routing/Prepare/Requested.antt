-- ===== src/Routing/Prepare/Requested.antt =====
-- The ids that the router makes, and what it reads back of the headers that it wrote.
use calinix.Hash.{Text, is_whitespace}
use calinix.Http.{HeaderMaps, IsHeaderMap, first_of}
use calinix.Prelude.Results.{ok}
use calinix.Protocol.{
  CalinixMode, single_mode, disaggregated_mode, RoutingHeaderValues, as_str, request_id_name,
  mode_name, inject_routing_headers,
}
use calinix.Protocol.Injected.{inject_routing_headers-IsInjected}
use calinix.Protocol.OpenAi.{not_empty}
use calinix.Protocol.Validated.{IsComplete}
use calinix.Protocol.Writes.{AllWritable, fields}
use calinix.Routing.Prepare.{
  new_request_id, mode_from, requested_mode, given_request_id, request_id, to_ascii_lowercase,
  trim_start, trim_end,
}
use calinix.Text.{strip_prefix, split_once, same_text}
use calinix.Text.Literals.{chars, to_hex, to_hex-injective, to_hex-Lacks, IsVisible, is_empty}
use calinix.Text.Splitting.{split_once-append, strip_prefix-append}
use calinix.Prelude.{ℕ, ◌≡◌, refl, sym, ap, ◌∙◌, false, Option, none, some, [], ◌++◌, arith}

-- The two numerals of an id, after its prefix.
abbrev split_numerals : Option Text → Option (Text × Text)
split_numerals none = none
split_numerals (some numerals) = split_once 45 numerals

abbrev numerals_of : Text → Option (Text × Text)
numerals_of id = split_numerals (strip_prefix (chars "calinix-") id)

numerals_of-new_request_id :
    (nanos counter : ℕ)
    → numerals_of (new_request_id nanos counter).0 ≡ some (to_hex nanos, to_hex counter)
unfolding new_request_id
numerals_of-new_request_id nanos counter =
    ap split_numerals
      (strip_prefix-append (chars "calinix-") (to_hex nanos ++ (chars "-" ++ to_hex counter)))
    ∙ split_once-append 45 (to_hex nanos) (to_hex counter) (to_hex-Lacks nanos)

abbrev first_numeral : Option (Text × Text) → Text
first_numeral none = []
first_numeral (some (s, t)) = s

abbrev second_numeral : Option (Text × Text) → Text
second_numeral none = []
second_numeral (some (s, t)) = t

-- Two ids that the router makes are the same only if the clock and the counter were the same.
pub new_request_id-injective :
    (m n c d : ℕ) → (new_request_id m c).0 ≡ (new_request_id n d).0 → (m ≡ n) × (c ≡ d)
new_request_id-injective m n c d same =
    let numerals : some (to_hex m, to_hex c) ≡ some (to_hex n, to_hex d) =
      sym (numerals_of-new_request_id m c)
      ∙ (ap numerals_of same ∙ numerals_of-new_request_id n d) in
    (
      to_hex-injective m n (ap first_numeral numerals),
      to_hex-injective c d (ap second_numeral numerals),
    )

mode_from-as_str :
    (mode : CalinixMode)
    → mode_from (to_ascii_lowercase (trim_end (trim_start (as_str mode)))) ≡ ok (some mode)
unfolding mode_from to_ascii_lowercase trim_end trim_start as_str same_text is_whitespace
mode_from-as_str single_mode = refl
mode_from-as_str disaggregated_mode = refl

as_str-IsVisible : (mode : CalinixMode) → IsVisible (as_str mode)
unfolding as_str
as_str-IsVisible single_mode = omega arith
as_str-IsVisible disaggregated_mode = omega arith

not_empty-given : (t : Text) → is_empty t ≡ false → not_empty (some t) ≡ some t
unfolding not_empty
not_empty-given t given = rw given refl

-- A router that gets the headers of another one keeps the mode and the id: after an injection of
-- values that are complete and may stand in headers, with a visible id, the mode that the headers
-- request is the mode of the values, and the id that they give is theirs.
pub requested-inject_routing_headers :
    {H V : Type 0} (hm : HeaderMaps H V) (law : IsHeaderMap hm) (values : RoutingHeaderValues)
    (headers : H) (nanos counter : ℕ)
    → IsComplete values
    → AllWritable hm (fields values)
    → IsVisible values.request_id
    → let forwarded = (inject_routing_headers hm values headers).0 in
      (requested_mode hm forwarded ≡ ok (some values.mode))
      × (request_id hm nanos counter forwarded ≡ (values.request_id, counter))
unfolding requested_mode request_id given_request_id
requested-inject_routing_headers hm law values headers nanos counter complete w visible =
    let forwarded = (inject_routing_headers hm values headers).0 in
    let (_, injected) = inject_routing_headers-IsInjected hm law values headers complete w in
    let (m, mode_parsed, has_mode) = injected.holds_mode in
    let (i, id_parsed, has_id) = injected.holds_request_id in
    let mode_read : hm.get forwarded mode_name ≡ some m =
      law.get-get_all forwarded mode_name ∙ ap first_of has_mode in
    let id_read : hm.get forwarded request_id_name ≡ some i =
      law.get-get_all forwarded request_id_name ∙ ap first_of has_id in
    let mode_text =
      law.to_str-from_str m (as_str values.mode) (as_str-IsVisible values.mode) mode_parsed in
    let id_text = law.to_str-from_str i values.request_id visible id_parsed in
    (
      rw (mode_read, mode_text, requested_mode) (mode_from-as_str values.mode),
      rw
          (
            id_read,
            id_text,
            not_empty-given values.request_id complete.0,
            request_id,
            given_request_id,
          )
          refl,
    )
