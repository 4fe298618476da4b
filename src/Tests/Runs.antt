-- ===== src/Tests/Runs.antt =====
-- Runs of the definitions, among them the cases of tests/unit_tests.cpp.
use network_proxy.Prelude.{
  Bytes, codes, find, find_from, find_char, is_space, to_lower_byte, getlines, is_digit,
  sto_unsigned, ◌≡◌, refl, true, some,
}
use network_proxy.Rules.Types.{RuleMatchContext, empty_context}
use network_proxy.Rules.Text.{trim, unquote, to_lower, parse_u16, strip_comment, split_key_value}
use network_proxy.Rules.Replace.{replace_all}
use network_proxy.Rules.Hex.{decode_hex_string}
use network_proxy.Rules.Match.{matches}
use network_proxy.Rules.Apply.{apply_transport, replace_step}
use network_proxy.Rules.Load.{load_from_file, process_line, load_loop, set_when, set_action}

abbrev rules_text : Bytes
rules_text =
    codes
      "rule \"tcp-out\" {\n  when.protocol = tcp\n  when.direction = outbound\n  when.remote_port = 7000\n  action.text_find = hello # c\n  action.text_replace = patched_hello\n}\n"

abbrev context : RuleMatchContext
context = record empty_context {
  protocol = codes "tcp";
  direction = codes "outbound";
  remote_port = 7000;
}

transport_run :
    apply_transport (load_from_file (some rules_text)).rules (codes "hello dsl hello") context
    ≡ (codes "patched_hello dsl patched_hello", true)
unfolding load_from_file load_loop process_line getlines trim strip_comment find_char to_lower
    to_lower_byte is_space unquote set_when set_action parse_u16 sto_unsigned is_digit
    split_key_value apply_transport replace_step replace_all matches find find_from
transport_run = refl

hex_run : decode_hex_string (codes "0x68 65-6C6c6f") ≡ some (codes "hello")
unfolding decode_hex_string is_space to_lower_byte
hex_run = refl
