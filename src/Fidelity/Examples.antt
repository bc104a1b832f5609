-- ===== src/Fidelity/Examples.antt =====
-- A flow with a cookie.
use deconstruct.Base.{
  codes, [], ◌≡◌, refl, contains, has_prefix, to_lower, lower_byte, upper_byte, lookup, member,
}
use deconstruct.Store.{Flow, done, failed}
use deconstruct.Replay.Lab.{captured}
use deconstruct.Replay.Headers.{
  header_get, header_values, canonical_key, is_token, is_token_byte, capitals,
}
use deconstruct.Fidelity.{
  Diagnostics, TagStore, standard, is_streaming, is_binary, is_interactive, has_credentials, advise,
  tags_for_flow, diagnose,
}
use deconstruct.Fidelity.Advice.{IsAdvice, diagnose-IsAdvice}

abbrev shelf : TagStore Unit
shelf = record { get_flow = λ id w. done captured; flow_tags = λ id w. failed (codes "no tags") }

abbrev advice : Diagnostics
advice = advise captured []

advice_test : diagnose shelf (codes "flow_1") tt ≡ done advice
unfolding diagnose tags_for_flow
advice_test = refl

advice_profile : advice.recommended ≡ codes "utls"
unfolding advise standard is_streaming is_binary is_interactive has_credentials contains has_prefix
    to_lower lower_byte upper_byte lookup member header_get header_values canonical_key is_token
    is_token_byte capitals
advice_profile = refl

diagnose-IsAdvice_example :
    (flow : Flow) × (shelf.get_flow (codes "flow_1") tt ≡ done flow)
    × IsAdvice flow (tags_for_flow shelf (codes "flow_1") tt) advice
diagnose-IsAdvice_example = diagnose-IsAdvice shelf (codes "flow_1") tt advice advice_test
