-- ===== src/Net/Codec.antt =====
-- What net/session.cpp calls and src/ does not hold: worker/codec.h (`proto::Frame`) and the
-- verifiers that flatbuffers generates. Both are parameters of the model.
use mmorpg_server_rl_portfol.Prelude.{ℕ, Bool, List, ◌++◌, length, ◌≡◌, ◌≤◌, ◌<◌, ◌^◌}

-- `proto::Frame`: `k_header`, `read_len` of the bytes from a place on, and what `write` puts into an
-- empty buffer before the payload, for a payload of a given length.
pub record Frame : Type 0 where
  pub k_header : ℕ
  pub read_len : List ℕ → ℕ
  pub header : ℕ → List ℕ

-- What the code relies on: the header has a fixed size that is not 0, `read_len` reads it and
-- nothing more, and reads back the length that `write` was given, a 32-bit number.
pub record IsFrame (fr : Frame) : Type 0 where
  pub k_header_pos : 1 ≤ fr.k_header
  pub read_len_local :
      (bs more : List ℕ) → fr.k_header ≤ length bs → fr.read_len (bs ++ more) ≡ fr.read_len bs
  pub length-header : (n : ℕ) → length (fr.header n) ≡ fr.k_header
  pub read_len-header : (n : ℕ) → n < 2 ^ 32 → fr.read_len (fr.header n) ≡ n

-- `Verifier::VerifyBuffer<game::Envelope>`, `GetRoot<game::Envelope>(..)->pkt_type()` and
-- `VerifyBuffer<field::FieldCmd>`, on a payload.
pub record Schema : Type 0 where
  pub verify_envelope : List ℕ → Bool
  pub pkt_type : List ℕ → ℕ
  pub verify_field_cmd : List ℕ → Bool
