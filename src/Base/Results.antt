-- ===== src/Base/Results.antt =====
-- `P2pResult` and the error codes of p2p-frame/src/error.rs.
use mathlib.Core.Bool.{Bool, true, false}

pub data P2pErrorCode : Type 0 where
  ok failed invalid_param timeout not_found already_exists not_support : P2pErrorCode
  error_state invalid_format expired out_of_limit internal_error : P2pErrorCode
  permission_denied connection_refused connection_reset : P2pErrorCode
  connection_aborted not_connected addr_in_use addr_not_available : P2pErrorCode
  interrupted invalid_input invalid_data write_zero unexpected_eof : P2pErrorCode
  broken_pipe would_block un_support unmatch execute_error reject : P2pErrorCode
  ignored invalid_signature already_exists_and_signature_merged : P2pErrorCode
  target_not_found aborted connect_failed connect_inter_zone_failed : P2pErrorCode
  inner_path_not_found range_not_satisfiable user_canceled conflict : P2pErrorCode
  outof_session_limit redirect mongo_db_error sqlite_error url_error : P2pErrorCode
  zip_error http_error json_error hex_error rsa_error crypto_error : P2pErrorCode
  mpsc_send_error mpsc_recv_error io_error network_error code_error : P2pErrorCode
  unknown_bdt_error unknown_io_error unknown pending not_change : P2pErrorCode
  not_match not_implement not_init parse_error not_handled : P2pErrorCode
  raw_codec_error sign_error stream_port_already_listen : P2pErrorCode
  datagram_port_already_listen cert_error tls_error quic_error : P2pErrorCode
  tunnel_not_connected connect_reset port_not_listen connect_ack_error : P2pErrorCode

-- `err` keeps the code of an error; its message is not modelled.
pub data Result {ℓ} (E : Type 0) (A : Type ℓ) : Type ℓ where
  ok : A → Result E A
  err : E → Result E A

abbrev pub P2pResult {ℓ} : Type ℓ → Type ℓ
P2pResult A = Result P2pErrorCode A

infixl 5 ◌>>=◌ ◌>>◌
abbrev pub ◌>>=◌ {ℓ κ} :
    {E : Type 0} {A : Type ℓ} {B : Type κ} → Result E A → (A → Result E B) → Result E B
ok a >>= f = f a
err e >>= f = err e

abbrev pub ◌>>◌ {ℓ} : {E : Type 0} {B : Type ℓ} → Result E (Unit {0}) → Result E B → Result E B
m >> k = m >>= λ _. k

-- `if test { return Err(e) }`.
abbrev pub fail_if : {E : Type 0} → Bool → E → Result E (Unit {0})
fail_if true e = err e
fail_if false e = ok tt
