-- ===== src/Worker/Dispatcher.antt =====
-- core/dispatcher.cpp: the table of handlers. A handler is known by a number; `dispatch` returns the
-- one that it calls. Types of messages and of packets are cut to eight bits.
use mmorpg_server_rl_portfol.Prelude.{
  ℕ, nat_eq, ◌%◌, ◌^◌, Bool, not, Option, none, some, update, if◌then◌else◌,
}

pub record Dispatcher : Type 0 where
  pub handlers : ℕ → Option ℕ

unfoldable pub register_handler : Dispatcher → ℕ → ℕ → Dispatcher
register_handler d msg_type fn = record {
  handlers = update d.handlers (msg_type % 2 ^ 8) (some fn);
}

unfoldable pub dispatch : Dispatcher → Bool → ℕ → Option ℕ
dispatch d has_pkt pkt_type = if not has_pkt then none else d.handlers (pkt_type % 2 ^ 8)
