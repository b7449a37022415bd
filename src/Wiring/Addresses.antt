-- ===== src/Wiring/Addresses.antt =====
-- The parts of a server agree on its name and its address.
use smolkafka.Prelude.{◌≡◌, sym, ap, ◌∙◌, arith, inl, inr, true, ◌&&◌, List, [], ◌∷◌}
use smolkafka.Exec.{ok, Result-cases}
use smolkafka.Disk.{Name, name_eq, name_eq_refl}
use smolkafka.Cluster.{Raft, join, leave}
use smolkafka.Cluster.Joining.{join-joined}
use smolkafka.Startup
use smolkafka.Startup.{self_server}
use smolkafka.Membership
use smolkafka.Membership.{Handler, Member, State, handle_join}
use smolkafka.Membership.Events.{handle_join-quiet}
use smolkafka.Wiring.{
  Config, StreamLayer, Packages, rpc_addr, rpc_addr_tag, log_config, membership_config,
}

-- The distributed log as the handler of membership.
abbrev pub handler_of : {S : Type 0} → Raft S → Handler S
handler_of raft = record { join = join raft; leave = leave raft }

-- What the others see of a member that has the tag.
abbrev pub member_of : Membership.Config → Name → Member
member_of mc addr = record { name = mc.node_name; rpc_addr = addr }

-- The text of the first tag.
abbrev tag_of : List (Name × Name) → Name
tag_of [] = []
tag_of ((tag, text) ∷ tags) = text

module _ {S M T H O : Type 0} (pkg : Packages S M T H O) (c : Config T) where
  -- The tag of a member has the address that Raft is bound to, and its name is Raft's.
  pub log_config-membership_config :
      (ln : M) (lc : Startup.Config (StreamLayer M T)) (mc : Membership.Config)
      → log_config pkg c ln ≡ ok lc
      → membership_config pkg c ≡ ok mc
      → (mc.tags ≡ (rpc_addr_tag, lc.bind_addr) ∷ []) × (mc.node_name ≡ lc.local_id)
  unfolding log_config membership_config
  log_config-membership_config ln lc mc e h = elim (Result-cases (rpc_addr pkg c)) [
    | inr (x, r) ↦ absurd (ground (arith, e, r))
    | inl (addr, r) ↦ (ground (arith, e, h, r), ground (arith, e, h, r))
  ]

  is_self :
      (lc : Startup.Config (StreamLayer M T)) (id addr : Name)
      → id ≡ lc.local_id
      → lc.bind_addr ≡ addr
      → (name_eq (self_server lc).id id && name_eq (self_server lc).address addr) ≡ true
  unfolding self_server
  is_self lc id addr same_id same_addr =
      ap (λ i. name_eq lc.local_id i && name_eq lc.bind_addr addr) same_id
      ∙ ap (λ a. name_eq lc.local_id lc.local_id && name_eq lc.bind_addr a) (sym same_addr)
      ∙ ap (λ b. b && name_eq lc.bind_addr lc.bind_addr) (name_eq_refl lc.local_id)
      ∙ name_eq_refl lc.bind_addr

  -- The parts of a server agree on it: where Raft's configuration is the one server that
  -- `setupLog` has bootstrapped, the join of the member that `setupMembership` made, with the
  -- address in its tag, is taken without an error and changes nothing.
  pub handle_join-bootstrapped :
      (ln : M) (lc : Startup.Config (StreamLayer M T)) (mc : Membership.Config) (raft : Raft S)
      (addr : Name) (s : State S)
      → log_config pkg c ln ≡ ok lc
      → membership_config pkg c ≡ ok mc
      → mc.tags ≡ (rpc_addr_tag, addr) ∷ []
      → raft.get_configuration s.inner ≡ (ok (self_server lc ∷ []), s.inner)
      → handle_join (handler_of raft) (member_of mc addr) s ≡ s
  handle_join-bootstrapped ln lc mc raft addr s e h tag gets =
      let (tags, name) = log_config-membership_config ln lc mc e h in
      let same_addr : lc.bind_addr ≡ addr = ap tag_of (sym tags ∙ tag) in
      handle_join-quiet (handler_of raft) (member_of mc addr) s (
        join-joined raft mc.node_name addr [] (self_server lc) [] s.inner gets tt
          (is_self lc mc.node_name addr name same_addr))
