-- ===== src/Common/Keys.antt =====
-- scalerouter/common.h: the keys of the router's maps, and their `operator==`.
use cs252aproject.Base.{
  ℕ, ◌≡◌, ◌↔◌, Bool, true, ◌&&◌, List, arith, Eq, ◌==◌, nat_eq, bytes_eq, list_beq, list_beq_iff,
}

-- `ibv_gid`: 16 bytes, compared by `memcmp` and copied by `memcpy`.
abbrev pub Gid : Type 0
Gid = List ℕ

pub record HostKey : Type 0 where
  pub src_gid : Gid
  pub dst_gid : Gid

pub record HostLid : Type 0 where
  pub src_lid : ℕ
  pub dst_lid : ℕ

pub record ConnKey : Type 0 where
  pub host_key : HostKey
  pub src_qpn : ℕ
  pub dst_qpn : ℕ

pub record ConnId : Type 0 where
  pub conn_key : ConnKey
  pub process_id : ℕ

pub record ConnInfo : Type 0 where
  pub conn_id : ConnId
  pub host_lid : HostLid

-- HostKey::operator==
abbrev pub host_key_beq : HostKey → HostKey → Bool
host_key_beq a b = list_beq a.src_gid b.src_gid && list_beq a.dst_gid b.dst_gid

-- ConnId::operator==
abbrev pub conn_id_beq : ConnId → ConnId → Bool
conn_id_beq a b =
    (a.process_id == b.process_id)
    && host_key_beq a.conn_key.host_key b.conn_key.host_key
    && (a.conn_key.src_qpn == b.conn_key.src_qpn)
    && (a.conn_key.dst_qpn == b.conn_key.dst_qpn)

-- Two host keys compare equal exactly when they are equal.
pub host_key_beq_iff : (a b : HostKey) → (host_key_beq a b ≡ true) ↔ (a ≡ b)
host_key_beq_iff a b =
    ground (arith, list_beq_iff a.src_gid b.src_gid, list_beq_iff a.dst_gid b.dst_gid)

-- Two connection ids compare equal exactly when they are equal: no field is left out.
pub conn_id_beq_iff : (a b : ConnId) → (conn_id_beq a b ≡ true) ↔ (a ≡ b)
conn_id_beq_iff a b = ground (arith, host_key_beq_iff a.conn_key.host_key b.conn_key.host_key)

instance abbrev pub host_key_eq : Eq HostKey
host_key_eq = record { is_equal = host_key_beq; is_equal_iff = host_key_beq_iff }

instance abbrev pub conn_id_eq : Eq ConnId
conn_id_eq = record { is_equal = conn_id_beq; is_equal_iff = conn_id_beq_iff }
