-- ===== src/Config/Items.antt =====
-- CONFIG_ITEMS of main/config.c: the table of the settings. The constants of ESP-IDF that it names are
-- the parameter `Idf`, and the number that stands for a key is its text read in base 256.
use Prim.Native.Char.{code}
use Prim.Native.String.{String}
use mathlib.Core.List.{List, [], ◌∷◌, ◌++◌}
use mathlib.Core.Bool.{Bool, true, false}
use rtkdata_fw.Base.{ℕ, ◌+◌, ◌*◌, ◌^◌}
use rtkdata_fw.Config.{Item, ItemType}

pub record Idf : Type 0 where
  pub uart_num_0 : ℕ
  pub gpio_num_1 : ℕ
  pub gpio_num_3 : ℕ
  pub gpio_num_14 : ℕ
  pub gpio_num_33 : ℕ
  pub uart_data_8_bits : ℕ
  pub uart_stop_bits_1 : ℕ
  pub uart_parity_disable : ℕ
  pub wifi_auth_open : ℕ

-- The bytes of an ASCII text.
unfoldable pub text : String → List ℕ
text String.[] = []
text (String.◌∷◌ c s) = code c ∷ text s

unfoldable pub key_from : ℕ → List ℕ → ℕ
key_from n [] = n
key_from n (c ∷ cs) = key_from (n * 256 + c) cs

unfoldable pub key : String → ℕ
unfolding key_from text
key s = key_from 0 (text s)

-- The key of an NTRIP server: the keys of the others end in their number.
unfoldable pub numbered : String → String → ℕ
unfolding key_from text
numbered s suffix = key_from 0 (text s ++ text suffix)

-- An initialiser names the type, the default and whether the item is secret.
unfoldable pub number : ItemType → ℕ → ℕ → Item
number t k n = record { key = k; type = t; secret = false; def_num = n; def_bytes = [] }

unfoldable pub secret_number : ItemType → ℕ → ℕ → Item
secret_number t k n = record { key = k; type = t; secret = true; def_num = n; def_bytes = [] }

unfoldable pub flag : ℕ → Bool → Item
unfolding number
flag k true = number ItemType.bool k 1
flag k false = number ItemType.bool k 0

unfoldable pub plain_text : ℕ → List ℕ → Item
plain_text k s = record {
  key = k;
  type = ItemType.string;
  secret = false;
  def_num = 0;
  def_bytes = s;
}

unfoldable pub secret_text : ℕ → List ℕ → Item
secret_text k s = record {
  key = k;
  type = ItemType.string;
  secret = true;
  def_num = 0;
  def_bytes = s;
}

unfoldable pub address : ℕ → ℕ → ℕ → ℕ → ℕ
address a b c d = a + b * 2 ^ 8 + c * 2 ^ 16 + d * 2 ^ 24

-- Admin
unfoldable pub admin_items : List Item
unfolding number plain_text secret_text key
admin_items =
    number ItemType.int8 (key "adm_auth") 0
    ∷ plain_text (key "adm_user") []
    ∷ secret_text (key "adm_pass") []
    ∷ []

-- Bluetooth
unfoldable pub bluetooth_items : List Item
unfolding flag secret_number plain_text key
bluetooth_items =
    flag (key "bt_active") false
    ∷ plain_text (key "bt_dev_name") []
    ∷ flag (key "bt_dev_vis") true
    ∷ secret_number ItemType.uint16 (key "bt_pin_code") 1234
    ∷ []

-- An NTRIP server: the ten are alike but for the suffix and the first one's being active.
unfoldable pub server : String → Bool → List Item
unfolding flag number plain_text secret_text numbered
server suffix active =
    flag (numbered "ntr_srv_actv" suffix) active
    ∷ number ItemType.color (numbered "ntr_srv_color" suffix) 0x00000055
    ∷ plain_text (numbered "ntr_srv_host" suffix) []
    ∷ number ItemType.uint16 (numbered "ntr_srv_port" suffix) 2101
    ∷ plain_text (numbered "ntr_srv_mp" suffix) []
    ∷ plain_text (numbered "ntr_srv_user" suffix) []
    ∷ secret_text (numbered "ntr_srv_pass" suffix) []
    ∷ []

unfoldable pub ntrip_server : List Item
unfolding server
ntrip_server = server "" true

unfoldable pub ntrip_server_1 : List Item
unfolding server
ntrip_server_1 = server "_1" false

unfoldable pub ntrip_server_2 : List Item
unfolding server
ntrip_server_2 = server "_2" false

unfoldable pub ntrip_server_3 : List Item
unfolding server
ntrip_server_3 = server "_3" false

unfoldable pub ntrip_server_4 : List Item
unfolding server
ntrip_server_4 = server "_4" false

unfoldable pub ntrip_server_5 : List Item
unfolding server
ntrip_server_5 = server "_5" false

unfoldable pub ntrip_server_6 : List Item
unfolding server
ntrip_server_6 = server "_6" false

unfoldable pub ntrip_server_7 : List Item
unfolding server
ntrip_server_7 = server "_7" false

unfoldable pub ntrip_server_8 : List Item
unfolding server
ntrip_server_8 = server "_8" false

unfoldable pub ntrip_server_9 : List Item
unfolding server
ntrip_server_9 = server "_9" false

-- The socket server and client
unfoldable pub socket_items : List Item
unfolding flag number plain_text key
socket_items =
    flag (key "sck_srv_active") false
    ∷ number ItemType.color (key "sck_srv_color") 0x00000055
    ∷ number ItemType.uint16 (key "sck_srv_t_port") 23
    ∷ number ItemType.uint16 (key "sck_srv_u_port") 23
    ∷ flag (key "sck_cli_active") false
    ∷ number ItemType.color (key "sck_cli_color") 0x00000055
    ∷ plain_text (key "sck_cli_host") []
    ∷ number ItemType.uint16 (key "sck_cli_port") 23
    ∷ flag (key "sck_cli_type") true
    ∷ plain_text (key "sck_cli_msg") (b'\n' ∷ [])
    ∷ []

-- UART
unfoldable pub uart_items : Idf → List Item
unfolding flag number key
uart_items idf =
    number ItemType.uint8 (key "uart_num") idf.uart_num_0
    ∷ number ItemType.uint8 (key "uart_tx_pin") idf.gpio_num_1
    ∷ number ItemType.uint8 (key "uart_rx_pin") idf.gpio_num_3
    ∷ number ItemType.uint8 (key "uart_rts_pin") idf.gpio_num_14
    ∷ number ItemType.uint8 (key "uart_cts_pin") idf.gpio_num_33
    ∷ number ItemType.uint32 (key "uart_baud_rate") 115200
    ∷ number ItemType.int8 (key "uart_data_bits") idf.uart_data_8_bits
    ∷ number ItemType.int8 (key "uart_stop_bits") idf.uart_stop_bits_1
    ∷ number ItemType.int8 (key "uart_parity") idf.uart_parity_disable
    ∷ flag (key "uart_fc_rts") false
    ∷ flag (key "uart_fc_cts") false
    ∷ flag (key "uart_log_fwd") false
    ∷ []

-- Wi-Fi
unfoldable pub wifi_items : Idf → List Item
unfolding flag number plain_text secret_text address key
wifi_items idf =
    flag (key "w_ap_active") true
    ∷ number ItemType.color (key "w_ap_color") 0x00000055
    ∷ plain_text (key "w_ap_ssid") []
    ∷ flag (key "w_ap_ssid_hid") false
    ∷ number ItemType.uint8 (key "w_ap_auth_mode") idf.wifi_auth_open
    ∷ secret_text (key "w_ap_pass") []
    ∷ number ItemType.ip (key "w_ap_gw") (address 192 168 4 1)
    ∷ number ItemType.uint8 (key "w_ap_subnet") 24
    ∷ flag (key "w_sta_active") true
    ∷ number ItemType.color (key "w_sta_color") 0x0044ff55
    ∷ plain_text (key "w_sta_ssid") []
    ∷ secret_text (key "w_sta_pass") []
    ∷ flag (key "w_sta_scan_mode") false
    ∷ flag (key "w_sta_ap_fwd") false
    ∷ flag (key "w_sta_static") false
    ∷ number ItemType.ip (key "w_sta_ip") (address 192 168 0 100)
    ∷ number ItemType.ip (key "w_sta_gw") (address 192 168 0 1)
    ∷ number ItemType.uint8 (key "w_sta_subnet") 24
    ∷ number ItemType.ip (key "w_sta_dns_a") (address 1 1 1 1)
    ∷ number ItemType.ip (key "w_sta_dns_b") (address 1 0 0 1)
    ∷ []

-- The hosting mode
unfoldable pub mode_items : List Item
unfolding number key
mode_items =
    number ItemType.uint16 (key "mode_active") 0
    ∷ number ItemType.color (key "mode_color") 0x0044ff55
    ∷ []

-- Provisioning
unfoldable pub provisioning_items : List Item
unfolding number plain_text secret_text key text
provisioning_items =
    plain_text (key "rtk_ie_host") (text "integrity-engine.onrender.com")
    ∷ plain_text (key "rtk_dev_id") []
    ∷ secret_text (key "rtk_sta_tok") []
    ∷ number ItemType.uint8 (key "rtk_state") 0
    ∷ plain_text (key "rtk_ota_base") []
    ∷ secret_text (key "rtk_enr_key") []
    ∷ number ItemType.uint8 (key "rtk_key_ver") 1
    ∷ []

-- `config_items_get`: the whole table, in its order.
unfoldable pub config_items : Idf → List Item
unfolding admin_items bluetooth_items ntrip_server ntrip_server_1 ntrip_server_2 ntrip_server_3
    ntrip_server_4 ntrip_server_5 ntrip_server_6 ntrip_server_7 ntrip_server_8 ntrip_server_9
    socket_items uart_items wifi_items mode_items provisioning_items
config_items idf =
    admin_items
    ++ bluetooth_items
    ++ ntrip_server
    ++ ntrip_server_1
    ++ ntrip_server_2
    ++ ntrip_server_3
    ++ ntrip_server_4
    ++ ntrip_server_5
    ++ ntrip_server_6
    ++ ntrip_server_7
    ++ ntrip_server_8
    ++ ntrip_server_9
    ++ socket_items
    ++ (uart_items idf)
    ++ (wifi_items idf)
    ++ mode_items
    ++ provisioning_items
