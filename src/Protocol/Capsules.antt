-- ===== src/Protocol/Capsules.antt =====
-- protocol/bootstrap.go: capsules.
pub mod Codec
use aurora_core.Common.{ℕ, Bool, List}
use aurora_core.Wire.Encoder.{Write, ◌>>◌, write_opaque16, write_uint8, write_varint}
use aurora_core.Wire.Reader.{Read, ◌>>=◌, pure, read_opaque16, read_uint8, read_varint}
use aurora_core.Protocol.Extensions.{Extension, encode_extensions, decode_extensions}
use aurora_core.Protocol.Admission.{
  AdmissionProof, encode_admission_proof, decode_admission_proof, ReplayProof, encode_replay_proof,
  decode_replay_proof,
}
use aurora_core.Protocol.Policies.{
  ClientTransportHints, encode_client_transport_hints, decode_client_transport_hints, PolicyAccept,
  encode_policy_accept, decode_policy_accept, PolicyOffer, encode_policy_offer, decode_policy_offer,
}

pub record CoverCapsule1Plain : Type 0 where
  pub msg_type : ℕ
  pub route_instance_id : ℕ
  pub admission_proof : AdmissionProof
  pub replay_proof : ReplayProof
  pub policy_offer : PolicyOffer
  pub client_transport_hints : ClientTransportHints
  pub client_finished : List ℕ
  pub padding : List ℕ
  pub extensions : List Extension

unfoldable pub encode_cover_capsule1_plain : CoverCapsule1Plain → Write
encode_cover_capsule1_plain x = do
  write_varint x.msg_type
  write_varint x.route_instance_id
  encode_admission_proof x.admission_proof
  encode_replay_proof x.replay_proof
  encode_policy_offer x.policy_offer
  encode_client_transport_hints x.client_transport_hints
  write_opaque16 x.client_finished
  write_opaque16 x.padding
  encode_extensions x.extensions

unfoldable pub decode_cover_capsule1_plain : Read CoverCapsule1Plain
decode_cover_capsule1_plain = do
  msg_type ← read_varint
  route_instance_id ← read_varint
  admission_proof ← decode_admission_proof
  replay_proof ← decode_replay_proof
  policy_offer ← decode_policy_offer
  client_transport_hints ← decode_client_transport_hints
  client_finished ← read_opaque16
  padding ← read_opaque16
  extensions ← decode_extensions
  pure (record {
    msg_type = msg_type;
    route_instance_id = route_instance_id;
    admission_proof = admission_proof;
    replay_proof = replay_proof;
    policy_offer = policy_offer;
    client_transport_hints = client_transport_hints;
    client_finished = client_finished;
    padding = padding;
    extensions = extensions;
  })

pub record CoverCapsule2Plain : Type 0 where
  pub msg_type : ℕ
  pub route_instance_id : ℕ
  pub policy_accept : PolicyAccept
  pub server_finished : List ℕ
  pub padding : List ℕ
  pub extensions : List Extension

unfoldable pub encode_cover_capsule2_plain : CoverCapsule2Plain → Write
encode_cover_capsule2_plain x = do
  write_varint x.msg_type
  write_varint x.route_instance_id
  encode_policy_accept x.policy_accept
  write_opaque16 x.server_finished
  write_opaque16 x.padding
  encode_extensions x.extensions

unfoldable pub decode_cover_capsule2_plain : Read CoverCapsule2Plain
decode_cover_capsule2_plain = do
  msg_type ← read_varint
  route_instance_id ← read_varint
  policy_accept ← decode_policy_accept
  server_finished ← read_opaque16
  padding ← read_opaque16
  extensions ← decode_extensions
  pure (record {
    msg_type = msg_type;
    route_instance_id = route_instance_id;
    policy_accept = policy_accept;
    server_finished = server_finished;
    padding = padding;
    extensions = extensions;
  })

pub record RouteCapsule1Plain : Type 0 where
  pub msg_type : ℕ
  pub route_instance_id : ℕ
  pub hop_index : ℕ
  pub admission_proof : AdmissionProof
  pub replay_proof : ReplayProof
  pub policy_offer : PolicyOffer
  pub client_finished : List ℕ
  pub padding : List ℕ
  pub extensions : List Extension

unfoldable pub encode_route_capsule1_plain : RouteCapsule1Plain → Write
encode_route_capsule1_plain x = do
  write_varint x.msg_type
  write_varint x.route_instance_id
  write_uint8 x.hop_index
  encode_admission_proof x.admission_proof
  encode_replay_proof x.replay_proof
  encode_policy_offer x.policy_offer
  write_opaque16 x.client_finished
  write_opaque16 x.padding
  encode_extensions x.extensions

unfoldable pub decode_route_capsule1_plain : Read RouteCapsule1Plain
decode_route_capsule1_plain = do
  msg_type ← read_varint
  route_instance_id ← read_varint
  hop_index ← read_uint8
  admission_proof ← decode_admission_proof
  replay_proof ← decode_replay_proof
  policy_offer ← decode_policy_offer
  client_finished ← read_opaque16
  padding ← read_opaque16
  extensions ← decode_extensions
  pure (record {
    msg_type = msg_type;
    route_instance_id = route_instance_id;
    hop_index = hop_index;
    admission_proof = admission_proof;
    replay_proof = replay_proof;
    policy_offer = policy_offer;
    client_finished = client_finished;
    padding = padding;
    extensions = extensions;
  })

pub record RouteCapsule2Plain : Type 0 where
  pub msg_type : ℕ
  pub route_instance_id : ℕ
  pub hop_index : ℕ
  pub policy_accept : PolicyAccept
  pub server_finished : List ℕ
  pub padding : List ℕ
  pub extensions : List Extension

unfoldable pub encode_route_capsule2_plain : RouteCapsule2Plain → Write
encode_route_capsule2_plain x = do
  write_varint x.msg_type
  write_varint x.route_instance_id
  write_uint8 x.hop_index
  encode_policy_accept x.policy_accept
  write_opaque16 x.server_finished
  write_opaque16 x.padding
  encode_extensions x.extensions

unfoldable pub decode_route_capsule2_plain : Read RouteCapsule2Plain
decode_route_capsule2_plain = do
  msg_type ← read_varint
  route_instance_id ← read_varint
  hop_index ← read_uint8
  policy_accept ← decode_policy_accept
  server_finished ← read_opaque16
  padding ← read_opaque16
  extensions ← decode_extensions
  pure (record {
    msg_type = msg_type;
    route_instance_id = route_instance_id;
    hop_index = hop_index;
    policy_accept = policy_accept;
    server_finished = server_finished;
    padding = padding;
    extensions = extensions;
  })
