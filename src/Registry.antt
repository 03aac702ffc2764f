-- ===== src/Registry.antt =====
-- registry/registry.go: the constants that the modelled code uses, under its names.
use aurora_core.Common.{ℕ}

abbrev pub version20 : ℕ
version20 = 0x000200

abbrev pub suite_hybrid768_aes_gcm : ℕ
suite_hybrid768_aes_gcm = 0x0001

abbrev pub suite_hybrid768_p256_aes_gcm : ℕ
suite_hybrid768_p256_aes_gcm = 0x0002

abbrev pub suite_hybrid1024_aes_gcm : ℕ
suite_hybrid1024_aes_gcm = 0x0003

abbrev pub suite_hybrid768_chacha20 : ℕ
suite_hybrid768_chacha20 = 0x0004

abbrev pub suite_hybrid768_p256_chacha20 : ℕ
suite_hybrid768_p256_chacha20 = 0x0005

abbrev pub suite_hybrid1024_chacha20 : ℕ
suite_hybrid1024_chacha20 = 0x0006

abbrev pub suite_lab_classical : ℕ
suite_lab_classical = 0x00ff

abbrev pub locator_ipv4_port : ℕ
locator_ipv4_port = 0x01

abbrev pub locator_ipv6_port : ℕ
locator_ipv6_port = 0x02

abbrev pub locator_authority : ℕ
locator_authority = 0x03

abbrev pub locator_opaque : ℕ
locator_opaque = 0x04

abbrev pub frame_stream_data : ℕ
frame_stream_data = 0x01

abbrev pub frame_datagram_data : ℕ
frame_datagram_data = 0x02

abbrev pub frame_ip_packet : ℕ
frame_ip_packet = 0x03

abbrev pub frame_dns_message : ℕ
frame_dns_message = 0x04

abbrev pub frame_control : ℕ
frame_control = 0x05

abbrev pub frame_path_probe : ℕ
frame_path_probe = 0x06

abbrev pub frame_key_update : ℕ
frame_key_update = 0x07

abbrev pub frame_padding : ℕ
frame_padding = 0x08

abbrev pub frame_close : ℕ
frame_close = 0x09

abbrev pub frame_route_forward : ℕ
frame_route_forward = 0x0a

abbrev pub frame_priority_update : ℕ
frame_priority_update = 0x0b

abbrev pub frame_ack_hint : ℕ
frame_ack_hint = 0x0c

abbrev pub frame_key_update_ack : ℕ
frame_key_update_ack = 0x0d

abbrev pub frame_key_update_request : ℕ
frame_key_update_request = 0x0e

abbrev pub frame_flow_open : ℕ
frame_flow_open = 0x0f

abbrev pub frame_udp_target_confirm : ℕ
frame_udp_target_confirm = 0x10

abbrev pub frame_flow_close : ℕ
frame_flow_close = 0x11

abbrev pub msg_cover_capsule1 : ℕ
msg_cover_capsule1 = 0x0103

abbrev pub msg_cover_capsule2 : ℕ
msg_cover_capsule2 = 0x0104

abbrev pub msg_route_capsule1 : ℕ
msg_route_capsule1 = 0x0203

abbrev pub msg_route_capsule2 : ℕ
msg_route_capsule2 = 0x0204
