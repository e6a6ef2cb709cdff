-- ===== src/Net/Server/Doors.antt =====
-- What net/tcp_server.cpp and net/sessionManager.h promise of the open connections.
use mmorpg_server_rl_portfol.Prelude.{
  ℕ, nat_eq, ◌==◌, ◌≡◌, ◌≢◌, ◌↔◌, ◌∙◌, refl, sym, ap, inl, inr, Bool, Bool-cases, true, false, not,
  ◌&&◌, List, [], ◌∷◌, ◌++◌, contains, contains-append, IsNodup, Option, none, some, update, lookup,
  put, remove, lookup-put, lookup-remove, if◌then◌else◌, if_true, if_false, beq_refl, eq_of_beq,
  beq_ne, arith,
}
use mmorpg_server_rl_portfol.Net.Session.{Session, new_session}
use mmorpg_server_rl_portfol.Net.Registry.{
  new_registry, add_session, remove_session, bind_player, erase_session, lock, lock_found,
  find_by_session_id,
}
use mmorpg_server_rl_portfol.Net.Unbinding.{locked}
use mmorpg_server_rl_portfol.Net.Server.{
  TcpServer, new_server, id_of, living, accepted_session, on_new_conn, close_found, on_closed,
  destroy,
}

-- A server and what happens to it: connections come, under an address and an id that no living session
-- has; an open one closes; a session dies that is not open; a login binds a session.
pub data Serves : TcpServer → Type 0 where
  opens : (game_worker : Bool) → Serves (new_server game_worker)
  connects :
      {server : TcpServer} (status_ok accepted : Bool) (addr sid : ℕ)
      → Serves server
      → server.objects addr ≡ none
      → ((other : ℕ) → living server other ≢ some sid)
      → Serves (on_new_conn server status_ok accepted addr sid)
  closes :
      {server : TcpServer} (addr : ℕ)
      → Serves server
      → contains addr server.sessions ≡ true
      → Serves (on_closed server addr)
  dies :
      {server : TcpServer} (addr : ℕ)
      → Serves server
      → contains addr server.sessions ≡ false
      → Serves (destroy server addr)
  binds :
      {server : TcpServer} (pid addr : ℕ)
      → Serves server
      → Serves (record server { registry = bind_player server.registry pid (some addr) })

-- The open sessions are distinct and alive, and the table of ids leads to just these.
record TableAgrees (sessions : List ℕ) (live : ℕ → Option ℕ) (table : List (ℕ × ℕ)) : Type 0 where
  distinct : IsNodup sessions
  alive : (addr : ℕ) → contains addr sessions ≡ true → (sid : ℕ) × (live addr ≡ some sid)
  found :
      (sid addr : ℕ)
      → lookup sid table ≡ some addr
      → (contains addr sessions ≡ true) × (live addr ≡ some sid)
  filed :
      (addr sid : ℕ)
      → contains addr sessions ≡ true
      → live addr ≡ some sid
      → lookup sid table ≡ some addr

contains-erase_session :
    (a b : ℕ) (xs : List ℕ)
    → IsNodup xs
    → contains a (erase_session b xs) ≡ not (a == b) && contains a xs
unfolding erase_session contains
contains-erase_session a b [] once = ground arith
contains-erase_session a b (x ∷ xs) once = ground (arith, contains-erase_session a b xs once.1)

IsNodup-erase_session : (b : ℕ) (xs : List ℕ) → IsNodup xs → IsNodup (erase_session b xs)
unfolding erase_session
IsNodup-erase_session b [] once = once
IsNodup-erase_session b (x ∷ xs) once =
    ground (arith, IsNodup-erase_session b xs once.1, contains-erase_session x b xs once.1)

IsNodup-append : (a : ℕ) (xs : List ℕ) → IsNodup xs → contains a xs ≡ false → IsNodup (xs ++ a ∷ [])
unfolding contains
IsNodup-append a [] once new = (refl, tt)
IsNodup-append a (x ∷ xs) once new =
    ground (arith, contains-append x xs (a ∷ []), IsNodup-append a xs once.1)

id_of-update :
    (objects : ℕ → Option Session) (a b : ℕ) (o : Option Session)
    → id_of (update objects b o a) ≡ (if a == b then id_of o else id_of (objects a))
unfolding update
id_of-update objects a b o = ground arith

module _ (sessions : List ℕ) (live : ℕ → Option ℕ) (table : List (ℕ × ℕ))
    (ok : TableAgrees sessions live table) (addr sid : ℕ) (live' : ℕ → Option ℕ) where
  TableAgrees-connects :
      live addr ≡ none
      → ((other : ℕ) → live other ≢ some sid)
      → ((a : ℕ) → live' a ≡ (if a == addr then some sid else live a))
      → TableAgrees (sessions ++ addr ∷ []) live' (put sid addr table)
  unfolding contains
  TableAgrees-connects absent fresh now =
      let new : contains addr sessions ≡ false = elim (Bool-cases (contains addr sessions)) [
        | inl old ↦ let (id, here) = ok.alive addr old in absurd (ground arith)
        | inr new ↦ new
      ] in
      record {
        distinct = IsNodup-append addr sessions ok.distinct new;
        alive = λ a among.
            let split = contains-append a sessions (addr ∷ []) in
            elim (Bool-cases (a == addr)) [
              | inl same ↦ (sid, now a ∙ if_true (some sid) (live a) same)
              | inr other ↦
                  let (id, here) = ok.alive a (ground arith) in
                  (id, now a ∙ if_false (some sid) (live a) other ∙ here)
            ];
        found = λ i a there.
            let split = contains-append a sessions (addr ∷ []) in
            let at = lookup-put i sid addr table in
            elim (Bool-cases (i == sid)) [
              | inl same ↦ ground (arith, now a, eq_of_beq i sid, beq_refl addr)
              | inr other ↦
                  let (among, here) = ok.found i a (ground arith) in
                  ground (arith, now a, eq_of_beq a addr)
            ];
        filed = λ a i among here.
            let split = contains-append a sessions (addr ∷ []) in
            let at = lookup-put i sid addr table in
            elim (Bool-cases (a == addr)) [
              | inl same ↦ ground (arith, now a, eq_of_beq a addr, beq_refl sid)
              | inr other ↦
                  let before : live a ≡ some i = ground (arith, now a) in
                  let apart = beq_ne i sid (λ e. fresh a (before ∙ ap some e)) in
                  let listed = ok.filed a i (ground arith) before in ground arith
            ];
      }

  TableAgrees-closes :
      contains addr sessions ≡ true
      → live addr ≡ some sid
      → TableAgrees (erase_session addr sessions) live (remove sid table)
  TableAgrees-closes listed here = record {
    distinct = IsNodup-erase_session addr sessions ok.distinct;
    alive =
        λ a among. ok.alive a (ground (arith, contains-erase_session a addr sessions ok.distinct));
    found = λ i a there.
        let at = lookup-remove i sid table in
        let (among, mine) = ok.found i a (ground arith) in
        ground (
          arith,
          contains-erase_session a addr sessions ok.distinct,
          eq_of_beq a addr,
          beq_refl sid,
        );
    filed = λ a i among mine.
        let split = contains-erase_session a addr sessions ok.distinct in
        let at = lookup-remove i sid table in
        let kept = ok.filed a i (ground arith) mine in
        let own = ok.filed addr sid listed here in ground (arith, eq_of_beq i sid, beq_refl a);
  }

  TableAgrees-dies :
      contains addr sessions ≡ false
      → ((a : ℕ) → (a == addr) ≡ false → live' a ≡ live a)
      → TableAgrees sessions live' table
  TableAgrees-dies shut kept =
      let apart : (a : ℕ) → contains a sessions ≡ true → live' a ≡ live a = λ a among.
        elim (Bool-cases (a == addr)) [
          | inl same ↦ absurd (ground (arith, eq_of_beq a addr))
          | inr other ↦ kept a other
        ] in
      record {
        distinct = ok.distinct;
        alive = λ a among. let (id, here) = ok.alive a among in (id, apart a among ∙ here);
        found =
            λ i a there. let (among, here) = ok.found i a there in (among, apart a among ∙ here);
        filed = λ a i among here. ok.filed a i among (sym (apart a among) ∙ here);
      }

-- Of a whole server.
HasTable : TcpServer → Type 0
HasTable server = TableAgrees server.sessions (living server) server.registry.sessions_by_session_id

HasTable-on_closed :
    (server : TcpServer) (addr : ℕ) (o : Option Session)
    → server.objects addr ≡ o
    → contains addr server.sessions ≡ true
    → HasTable server
    → HasTable (close_found server addr o)
unfolding HasTable close_found remove_session
HasTable-on_closed server addr none here listed ok = ok
HasTable-on_closed server addr (some s) here listed ok =
    TableAgrees-closes server.sessions (living server) server.registry.sessions_by_session_id ok
      addr s.id (living server) listed (ap id_of here)

Serves-HasTable : {server : TcpServer} → Serves server → HasTable server
unfolding HasTable new_server new_registry on_new_conn accepted_session new_session add_session
    on_closed destroy bind_player lookup contains
Serves-HasTable (opens game_worker) = record {
  distinct = tt;
  alive = λ addr among. absurd (cc);
  found = λ sid addr there. absurd (cc);
  filed = λ addr sid among here. absurd (cc);
}
Serves-HasTable (connects false accepted addr sid r absent fresh) = Serves-HasTable r
Serves-HasTable (connects true false addr sid r absent fresh) = Serves-HasTable r
Serves-HasTable (connects {server = server} true true addr sid r absent fresh) =
    TableAgrees-connects server.sessions (living server) server.registry.sessions_by_session_id
      (Serves-HasTable r) addr sid _ (ap id_of absent) fresh
      (λ a. id_of-update server.objects a addr (some (accepted_session server sid)))
Serves-HasTable (closes {server = server} addr r listed) =
    HasTable-on_closed server addr (server.objects addr) refl listed (Serves-HasTable r)
Serves-HasTable (dies {server = server} addr r shut) =
    TableAgrees-dies server.sessions (living server) server.registry.sessions_by_session_id
      (Serves-HasTable r) addr 0 _ shut
      (λ a other. id_of-update server.objects a addr none ∙ if_false none (living server a) other)
Serves-HasTable (binds pid addr r) = Serves-HasTable r

-- However connections come, close and die, and whatever logins bind, a lookup by the id of a session
-- finds just the connections that are open: a session exactly when the server holds it and it has that
-- id. The addresses and the ids of new sessions are those of no living one.
pub find_by_session_id-Serves :
    {server : TcpServer} (sid addr : ℕ)
    → Serves server
    → (find_by_session_id (living server) server.registry sid ≡ some addr)
      ↔ ((contains addr server.sessions ≡ true) × (living server addr ≡ some sid))
unfolding find_by_session_id lock_found lock HasTable
find_by_session_id-Serves {server} sid addr r =
    let ok = Serves-HasTable r in
    (
      λ there. ok.found sid addr (locked (living server) _ addr there).0,
      λ (listed, here).
          ap (lock_found (living server)) (ok.filed addr sid listed here)
          ∙ ap (λ (o : Option ℕ). elim o as (λ x. Option ℕ) [ none ↦ none | some i ↦ some addr ])
              here,
    )
