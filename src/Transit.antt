-- ===== src/Transit.antt =====
-- src/transit.rs: the vouchers and the frames of a relay. Keys and signatures are their bytes.
pub mod Vouchers
pub mod Frames
use nerw_rpc.Prelude.{
  ℕ, ◌/◌, ◌%◌, ◌^◌, List, [], ◌∷◌, ◌++◌, Option, Bool, true, false, if◌then◌else◌, leb,
}
use nerw_rpc.Prelude.Text.{Text, utf8, text_eq}
use nerw_rpc.Result.{Result, ok, err, map_err, ◌>>=◌}
use nerw_rpc.Context.{NodeId}
use nerw_rpc.External.Keys.{Keys}
use nerw_rpc.External.Postcard.{PostcardTake}

abbrev pub voucher_domain_tag : List ℕ
voucher_domain_tag = utf8 "nerw/transit/voucher/v1"

abbrev pub default_reservation_ttl_secs : ℕ
default_reservation_ttl_secs = 600

pub record Capabilities : Type 0 where
  pub reserved_flags : ℕ

pub record Limits : Type 0 where
  pub max_circuit_bytes : ℕ
  pub max_circuit_duration_secs : ℕ

-- `Limits::default`.
abbrev pub no_limits : Limits
no_limits = record { max_circuit_bytes = 0; max_circuit_duration_secs = 0 }

pub data TransitError : Type 0 where
  whitelist_rejected : TransitError
  capacity_full : TransitError
  voucher_expired : TransitError
  voucher_invalid_sig : TransitError
  target_not_found : TransitError
  malformed : TransitError
  unexpected_frame : TransitError

-- `Display`.
abbrev pub display_transit : TransitError → Text
display_transit whitelist_rejected = utf8 "caller is not in the relay's whitelist"
display_transit capacity_full = utf8 "relay reservation table is full"
display_transit voucher_expired = utf8 "voucher expiry is in the past"
display_transit voucher_invalid_sig = utf8 "voucher signature does not verify"
display_transit target_not_found = utf8 "no active reservation for the requested target"
display_transit malformed = utf8 "frame failed to decode"
display_transit unexpected_frame = utf8 "frame is valid but unexpected in current state"

pub record Voucher : Type 0 where
  pub relay_node_id : NodeId
  pub peer_node_id : NodeId
  pub expire_unix_secs : ℕ
  pub signature : List ℕ

-- `u64::to_be_bytes`.
abbrev pub to_be_bytes : ℕ → List ℕ
to_be_bytes n =
    (n / 2 ^ 56 % 256)
    ∷ (n / 2 ^ 48 % 256)
    ∷ (n / 2 ^ 40 % 256)
    ∷ (n / 2 ^ 32 % 256)
    ∷ (n / 2 ^ 24 % 256)
    ∷ (n / 2 ^ 16 % 256)
    ∷ (n / 2 ^ 8 % 256)
    ∷ (n % 256)
    ∷ []

unfoldable pub compose_signing_bytes : NodeId → NodeId → ℕ → List ℕ
compose_signing_bytes relay_node_id peer_node_id expire_unix_secs =
    voucher_domain_tag ++ (relay_node_id ++ (peer_node_id ++ to_be_bytes expire_unix_secs))

abbrev pub signing_bytes : Voucher → List ℕ
signing_bytes v = compose_signing_bytes v.relay_node_id v.peer_node_id v.expire_unix_secs

module _ (keys : Keys) where
  unfoldable pub sign : List ℕ → NodeId → ℕ → Voucher
  sign relay_secret peer_node_id expire_unix_secs =
      let relay_node_id = keys.public relay_secret in
      record {
        relay_node_id = relay_node_id;
        peer_node_id = peer_node_id;
        expire_unix_secs = expire_unix_secs;
        signature =
            keys.sign relay_secret
              (compose_signing_bytes relay_node_id peer_node_id expire_unix_secs);
      }

  unfoldable pub verify : Voucher → List ℕ → Result TransitError (Unit {0})
  verify v relay_pub_key =
      if text_eq v.relay_node_id relay_pub_key
      then (if keys.verify relay_pub_key (signing_bytes v) v.signature
          then ok tt
          else err voucher_invalid_sig)
      else err voucher_invalid_sig

abbrev pub is_expired : Voucher → ℕ → Bool
is_expired v now_unix_secs = leb v.expire_unix_secs now_unix_secs

pub data ReserveOutcome : Type 0 where
  granted : Voucher → Limits → ReserveOutcome
  denied : TransitError → ReserveOutcome

pub data ConnectOutcome : Type 0 where
  connected : ConnectOutcome
  refused : TransitError → ConnectOutcome

pub data TransitFrame : Type 0 where
  hello : NodeId → Capabilities → TransitFrame
  reserve_request : NodeId → List ℕ → TransitFrame
  reserve_response : ReserveOutcome → TransitFrame
  connect_request : NodeId → Option Voucher → TransitFrame
  connect_response : ConnectOutcome → TransitFrame
  bye : Option Text → TransitFrame

module _ (p : PostcardTake TransitFrame) where
  unfoldable pub encode_frame : TransitFrame → Result TransitError (List ℕ)
  encode_frame frame = map_err (λ e. malformed) (p.to_allocvec frame)

  -- A frame must be all of the input.
  abbrev pub without_rest : TransitFrame × List ℕ → Result TransitError TransitFrame
  without_rest (frame, []) = ok frame
  without_rest (frame, _ ∷ _) = err malformed

  unfoldable pub decode_frame : List ℕ → Result TransitError TransitFrame
  decode_frame bytes = map_err (λ e. malformed) (p.take_from_bytes bytes) >>= without_rest
