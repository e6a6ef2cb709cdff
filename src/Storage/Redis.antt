-- ===== src/Storage/Redis.antt =====
-- storage/redis/redisUserCache.cpp. The connection of hiredis is a parameter: appending a command and
-- reading a reply change it and may fail. A command stands for its text, with the key of the uid.
-- `strtof` and `atoi` are the C library's.
use Prim.Native.String.{String}
use mmorpg_server_rl_portfol.Prelude.{
  ℕ, ℤ, pos, negsuc, ltb, ◌%◌, ◌-◌, Bool, true, false, List, [], ◌∷◌, Option, none, some,
  if◌then◌else◌, is_empty, FloatArith,
}
use mmorpg_server_rl_portfol.Field.Types.{UserSnapshot}

-- An element of a reply that is an array; a string may lack its text.
pub data Element : Type 0 where
  string_reply : Option String → Element
  integer_reply : ℤ → Element
  nil_reply : Element
  other_reply : Element

pub data RedisReply : Type 0 where
  array_reply : List (Option Element) → RedisReply
  plain_reply : RedisReply

pub data Command (F : Type 0) : Type 0 where
  hset : ℕ → F → F → ℤ → ℤ → Command F
  hmget : ℕ → Command F

-- A reply may be a null pointer.
pub record RedisContext (F : Type 0) : Type 1 where
  pub Conn : Type 0
  pub append : Conn → Command F → Conn × Bool
  pub get_reply : Conn → Conn × Option (Option RedisReply)
  pub strtof : String → F
  pub atoi : String → ℤ

-- `static_cast<int>` of 64 bits, with 32 bits for an `int`.
unfoldable pub to_int : ℤ → ℤ
to_int (pos n) =
    let low = n % 4294967296 in if ltb low 2147483648 then pos low else negsuc (4294967295 - low)
to_int (negsuc n) =
    let low = n % 4294967296 in if ltb low 2147483648 then negsuc low else pos (4294967295 - low)

module _ (fl : FloatArith) (ctx : RedisContext fl.F) where
  open fl use {F, of_int}
  open ctx use {Conn, append, get_reply, strtof, atoi}

  unfoldable pub parse_float : Option Element → Option F
  parse_float none = none
  parse_float (some (string_reply none)) = none
  parse_float (some (string_reply (some str))) = some (strtof str)
  parse_float (some (integer_reply i)) = some (of_int i)
  parse_float (some nil_reply) = none
  parse_float (some other_reply) = none

  unfoldable pub parse_int : Option Element → Option ℤ
  unfolding to_int
  parse_int none = none
  parse_int (some (integer_reply i)) = some (to_int i)
  parse_int (some (string_reply none)) = none
  parse_int (some (string_reply (some str))) = some (atoi str)
  parse_int (some nil_reply) = none
  parse_int (some other_reply) = none

  -- The commands are appended, up to the first that fails.
  unfoldable pub append_all : Conn → List (Command F) → Conn × Bool
  append_all c [] = (c, true)
  append_all c (cmd ∷ cmds) =
      let (c', ok) = append c cmd in
      let rest = append_all c' cmds in if ok then rest else (c', false)

  unfoldable pub hset_of : UserSnapshot F → Command F
  hset_of s = hset s.uid s.x s.z s.hp s.sp

  unfoldable pub hsets : List (UserSnapshot F) → List (Command F)
  unfolding hset_of
  hsets [] = []
  hsets (s ∷ snap) = hset_of s ∷ hsets snap

  -- One reply for each snapshot; what it says is not looked at.
  unfoldable pub collect_replies : Conn → List (UserSnapshot F) → Conn × Bool
  collect_replies c [] = (c, true)
  collect_replies c (s ∷ snap) =
      let (c', reply) = get_reply c in
      elim reply [ none ↦ (c', false) | some r ↦ collect_replies c' snap ]

  -- `WriteUsersRtOnly` with a context.
  unfoldable pub write_users_rt_only : Conn → List (UserSnapshot F) → Conn × Bool
  unfolding append_all hsets collect_replies
  write_users_rt_only c snap =
      let (c', ok) = append_all c (hsets snap) in
      if is_empty snap then (c, true) else if ok then collect_replies c' snap else (c', false)

  unfoldable pub hmgets : List ℕ → List (Command F)
  hmgets [] = []
  hmgets (uid ∷ uids) = hmget uid ∷ hmgets uids

  -- The four values, if they all parse.
  unfoldable pub read_values :
      ℕ → Option F → Option F → Option ℤ → Option ℤ → Option (UserSnapshot F)
  read_values uid (some x) (some z) (some hp) (some sp) =
      some (record { uid = uid; x = x; z = z; hp = hp; sp = sp; inv_json = "" })
  read_values uid x z hp sp = none

  unfoldable pub read_elements : ℕ → List (Option Element) → Option (UserSnapshot F)
  unfolding read_values parse_float parse_int
  read_elements uid (x ∷ z ∷ hp ∷ sp ∷ []) =
      read_values uid (parse_float x) (parse_float z) (parse_int hp) (parse_int sp)
  read_elements uid elements = none

  unfoldable pub read_reply : ℕ → Option RedisReply → Option (UserSnapshot F)
  unfolding read_elements
  read_reply uid none = none
  read_reply uid (some plain_reply) = none
  read_reply uid (some (array_reply elements)) = read_elements uid elements

  abbrev pub push_valid : Option (UserSnapshot F) → List (UserSnapshot F) → List (UserSnapshot F)
  push_valid none out = out
  push_valid (some s) out = s ∷ out

  -- A turn of the loop over the replies, with what the later turns come to: the connection, the
  -- snapshots up to a failure, and whether it went well.
  unfoldable pub fetch_one :
      ℕ
      → Conn
      → Option (Option RedisReply)
      → Conn × (List (UserSnapshot F) × Bool)
      → Conn × (List (UserSnapshot F) × Bool)
  unfolding read_reply
  fetch_one uid c none later = (c, ([], false))
  fetch_one uid c (some r) later = (later.0, (push_valid (read_reply uid r) later.1.0, later.1.1))

  unfoldable pub fetch_replies : Conn → List ℕ → Conn × (List (UserSnapshot F) × Bool)
  unfolding fetch_one
  fetch_replies c [] = (c, ([], true))
  fetch_replies c (uid ∷ uids) =
      let (c', reply) = get_reply c in fetch_one uid c' reply (fetch_replies c' uids)

  -- `FetchUsers` with a context.
  unfoldable pub fetch_users : Conn → List ℕ → Conn × (List (UserSnapshot F) × Bool)
  unfolding append_all hmgets fetch_replies
  fetch_users c uids =
      let (c', ok) = append_all c (hmgets uids) in
      if is_empty uids
      then (c, ([], true))
      else if ok
      then fetch_replies c' uids
      else (c', ([], false))
