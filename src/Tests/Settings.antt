-- ===== src/Tests/Settings.antt =====
-- The configuration and its web page on a store in memory, and the captive DNS.
use mathlib.Core.List.{List, [], ◌∷◌}
use mathlib.Core.Option.{Option, none, some}
use rtkdata_fw.Base.{
  ◌≢◌, ℕ, ◌≡◌, refl, arith, true, false, ◌<◌, ap, inl, inr, if◌then◌else◌, ◌==◌, ◌%◌, ◌^◌,
}
use rtkdata_fw.Text.{print_nat}
use rtkdata_fw.Config.{Kind, Item, ItemType, esp_ok, num, config_set, config_get_primitive}
use rtkdata_fw.Config.{narrow, bits, set_kind}
use rtkdata_fw.Config.{config_get_item}
use rtkdata_fw.Config.Items.{Idf, config_items, number, secret_text, key}
use rtkdata_fw.Config.Table.{Listed, config_items-Apart}
use rtkdata_fw.Config.Laws.{Same, config_set-get}
use rtkdata_fw.WebConfig.{Entry, str, apply_value, post_items}
use rtkdata_fw.WebConfig.Numbers.{post_unsigned, unsigned_kind}
use rtkdata_fw.WebConfig.Post.{post_items-Same}
use rtkdata_fw.Dns.{respond}
use rtkdata_fw.Dns.Query.{Query, IsQuery, encode, reply_to, respond-encode}
use rtkdata_fw.Dns.Reply.{IsReply, respond-IsReply}
use rtkdata_fw.Tests.Memory.{memory, blank}

-- A caster port, and a password.
abbrev port : Item
port = record { key = 1; type = ItemType.uint16; secret = false; def_num = 2101; def_bytes = [] }

abbrev password : Item
password = record { key = 2; type = ItemType.string; secret = true; def_num = 0; def_bytes = [] }

config_set-get_example :
    config_get_primitive memory port (config_set memory port (num 70000) blank).1
    ≡ some (esp_ok, narrow Kind.u16 70000)
unfolding config_set set_kind
config_set-get_example = config_set-get memory port Kind.u16 70000 blank refl refl

-- The port 70000 is accepted, and 4464 is stored.
post_unsigned_example :
    config_get_primitive memory port (apply_value memory port (str (print_nat 70000)) blank).1
    ≡ some (esp_ok, 70000 % 2 ^ bits Kind.u16)
unfolding apply_value unsigned_kind print_nat
post_unsigned_example = post_unsigned memory port Kind.u16 70000 blank refl (omega arith) refl

-- A request that changes the port leaves the password.
abbrev new_port : ℕ → Option Entry
new_port key = if key == 1 then some (str (b'2' ∷ b'1' ∷ b'0' ∷ b'2' ∷ [])) else none

post_items-Same_example :
    Same memory password blank (post_items memory (port ∷ password ∷ []) new_port blank)
post_items-Same_example = post_items-Same memory (port ∷ password ∷ []) new_port password blank refl

-- A query for the A record of "ab", with an OPT record behind it.
abbrev query : Query
query = record {
  id_high = 18;
  id_low = 52;
  flags_high = 1;
  flags_low = 0;
  an_high = 0;
  an_low = 0;
  ns_high = 0;
  ns_low = 0;
  ar_high = 0;
  ar_low = 1;
  labels = (b'a' ∷ b'b' ∷ []) ∷ [];
  type_high = 0;
  type_low = 1;
  class_high = 0;
  class_low = 1;
  extra = 0 ∷ 0 ∷ 41 ∷ [];
}

abbrev ap_ip : List ℕ
ap_ip = 192 ∷ 168 ∷ 4 ∷ 1 ∷ []

query-IsQuery : IsQuery query
unfolding encode
query-IsQuery = record {
  asks = omega arith;
  flags_byte = omega arith;
  names = ((omega arith, omega arith), tt);
  type_high_byte = omega arith;
  type_low_byte = omega arith;
  fits = omega arith;
}

respond-IsReply_example :
    IsReply (encode query) (reply_to ap_ip query)
    × ((ip : List ℕ) → respond ip (reply_to ap_ip query) ≡ none)
unfolding encode
respond-IsReply_example =
    respond-IsReply ap_ip (encode query) (reply_to ap_ip query) refl (omega arith)
      (respond-encode ap_ip query query-IsQuery)

-- ESP-IDF's constants, and two settings of the table.
abbrev idf : Idf
idf = record {
  uart_num_0 = 0;
  gpio_num_1 = 1;
  gpio_num_3 = 3;
  gpio_num_14 = 14;
  gpio_num_33 = 33;
  uart_data_8_bits = 3;
  uart_stop_bits_1 = 1;
  uart_parity_disable = 0;
  wifi_auth_open = 0;
}

unfoldable caster_port : Item
unfolding number
caster_port = number ItemType.uint16 (key "ntr_srv_port") 2101

unfoldable admin_password : Item
unfolding secret_text
admin_password = secret_text (key "adm_pass") []

caster_port-Listed : Listed caster_port (config_items idf)
unfolding config_items caster_port
caster_port-Listed = inr (inr (inr (inr (inr (inr (inr (inr (inr (inr (inl refl))))))))))

admin_password-Listed : Listed admin_password (config_items idf)
unfolding config_items admin_password
admin_password-Listed = inr (inr (inl refl))

two_settings : caster_port ≢ admin_password
unfolding caster_port admin_password key
two_settings e =
    let same : caster_port.key ≡ admin_password.key = ap (λ (i : Item). i.key) e in ground arith

config_items-Apart_example :
    (config_get_item caster_port.key (config_items idf) ≡ some caster_port)
    × ((0 < caster_port.key) × (caster_port.key < 2 ^ 120))
    × Same memory admin_password blank (config_set memory caster_port (num 2102) blank).1
config_items-Apart_example =
    config_items-Apart memory idf caster_port admin_password (num 2102) blank caster_port-Listed
      admin_password-Listed two_settings
