-- ===== src/Command/Keys.antt =====
-- The names of the command's flags, and the keys that its settings are looked up by, in
-- cmd/smolkafka/main.go.
use smolkafka.Prelude.{[], ◌∷◌}
use smolkafka.Disk.{Name}

abbrev pub config_file_key : Name
config_file_key = b'c' ∷ b'o' ∷ b'n' ∷ b'f' ∷ b'i' ∷ b'g' ∷ b'-' ∷ b'f' ∷ b'i' ∷ b'l' ∷ b'e' ∷ []

abbrev pub data_dir_key : Name
data_dir_key = b'd' ∷ b'a' ∷ b't' ∷ b'a' ∷ b'-' ∷ b'd' ∷ b'i' ∷ b'r' ∷ []

abbrev pub node_name_key : Name
node_name_key = b'n' ∷ b'o' ∷ b'd' ∷ b'e' ∷ b'-' ∷ b'n' ∷ b'a' ∷ b'm' ∷ b'e' ∷ []

abbrev pub bind_addr_key : Name
bind_addr_key = b'b' ∷ b'i' ∷ b'n' ∷ b'd' ∷ b'-' ∷ b'a' ∷ b'd' ∷ b'd' ∷ b'r' ∷ []

abbrev pub rpc_port_key : Name
rpc_port_key = b'r' ∷ b'p' ∷ b'c' ∷ b'-' ∷ b'p' ∷ b'o' ∷ b'r' ∷ b't' ∷ []

abbrev pub start_join_addrs_key : Name
start_join_addrs_key =
    b's' ∷ b't' ∷ b'a' ∷ b'r' ∷ b't' ∷ b'-' ∷ b'j' ∷ b'o' ∷ b'i' ∷ b'n' ∷ b'-' ∷ b'a' ∷ b'd' ∷ b'd'
    ∷ b'r' ∷ b's' ∷ []

abbrev pub bootstrap_key : Name
bootstrap_key = b'b' ∷ b'o' ∷ b'o' ∷ b't' ∷ b's' ∷ b't' ∷ b'r' ∷ b'a' ∷ b'p' ∷ []

abbrev pub acl_model_file_key : Name
acl_model_file_key =
    b'a' ∷ b'c' ∷ b'l' ∷ b'-' ∷ b'm' ∷ b'o' ∷ b'd' ∷ b'e' ∷ b'l' ∷ b'-' ∷ b'f' ∷ b'i' ∷ b'l' ∷ b'e'
    ∷ []

abbrev pub acl_policy_file_key : Name
acl_policy_file_key =
    b'a' ∷ b'c' ∷ b'l' ∷ b'-' ∷ b'p' ∷ b'o' ∷ b'l' ∷ b'i' ∷ b'c' ∷ b'y' ∷ b'-' ∷ b'f' ∷ b'i' ∷ b'l'
    ∷ b'e' ∷ []

abbrev pub server_tls_cert_file_key : Name
server_tls_cert_file_key =
    b's' ∷ b'e' ∷ b'r' ∷ b'v' ∷ b'e' ∷ b'r' ∷ b'-' ∷ b't' ∷ b'l' ∷ b's' ∷ b'-' ∷ b'c' ∷ b'e' ∷ b'r'
    ∷ b't' ∷ b'-' ∷ b'f' ∷ b'i' ∷ b'l' ∷ b'e' ∷ []

abbrev pub server_tls_key_file_key : Name
server_tls_key_file_key =
    b's' ∷ b'e' ∷ b'r' ∷ b'v' ∷ b'e' ∷ b'r' ∷ b'-' ∷ b't' ∷ b'l' ∷ b's' ∷ b'-' ∷ b'k' ∷ b'e' ∷ b'y'
    ∷ b'-' ∷ b'f' ∷ b'i' ∷ b'l' ∷ b'e' ∷ []

abbrev pub server_tls_ca_file_key : Name
server_tls_ca_file_key =
    b's' ∷ b'e' ∷ b'r' ∷ b'v' ∷ b'e' ∷ b'r' ∷ b'-' ∷ b't' ∷ b'l' ∷ b's' ∷ b'-' ∷ b'c' ∷ b'a' ∷ b'-'
    ∷ b'f' ∷ b'i' ∷ b'l' ∷ b'e' ∷ []

abbrev pub peer_tls_cert_file_key : Name
peer_tls_cert_file_key =
    b'p' ∷ b'e' ∷ b'e' ∷ b'r' ∷ b'-' ∷ b't' ∷ b'l' ∷ b's' ∷ b'-' ∷ b'c' ∷ b'e' ∷ b'r' ∷ b't' ∷ b'-'
    ∷ b'f' ∷ b'i' ∷ b'l' ∷ b'e' ∷ []

abbrev pub peer_tls_key_file_key : Name
peer_tls_key_file_key =
    b'p' ∷ b'e' ∷ b'e' ∷ b'r' ∷ b'-' ∷ b't' ∷ b'l' ∷ b's' ∷ b'-' ∷ b'k' ∷ b'e' ∷ b'y' ∷ b'-' ∷ b'f'
    ∷ b'i' ∷ b'l' ∷ b'e' ∷ []

abbrev pub peer_tls_ca_file_key : Name
peer_tls_ca_file_key =
    b'p' ∷ b'e' ∷ b'e' ∷ b'r' ∷ b'-' ∷ b't' ∷ b'l' ∷ b's' ∷ b'-' ∷ b'c' ∷ b'a' ∷ b'-' ∷ b'f' ∷ b'i'
    ∷ b'l' ∷ b'e' ∷ []

abbrev pub acl_mode_file_key : Name
acl_mode_file_key =
    b'a' ∷ b'c' ∷ b'l' ∷ b'-' ∷ b'm' ∷ b'o' ∷ b'd' ∷ b'e' ∷ b'-' ∷ b'f' ∷ b'i' ∷ b'l' ∷ b'e' ∷ []
