-- ===== src/Gateway/JoinBook.antt =====
-- `joinBook` of gateway/gateway.go: it matches join replies to the topics that asked for them.
-- The maps hold pointers to `channelJoin` values, which two maps share and the code mutates. The
-- store is written out: `cells` maps an address to its value, and `allocated` is the next free
-- address. The lock makes each operation one step.
pub mod Invariant
pub mod Awaiting
pub mod Counted
use warmbly_go.Common.{
  ℕ, ◌+◌, Bool, true, false, not, ◌||◌, Option, none, some, ◌==◌, if◌then◌else◌,
}
use warmbly_go.Common.Text.{String, str_eq, put}

pub record ChannelJoin : Type 0 where
  pub topic : String
  pub primary : Bool
  pub join_ref : String
  pub joined : Bool

pub record JoinBook : Type 0 where
  pub cells : ℕ → ChannelJoin
  pub allocated : ℕ
  pub by_ref : String → Option ℕ
  pub by_topic : String → Option ℕ

abbrev pub new_channel_join : String → Bool → ChannelJoin
new_channel_join topic primary = record {
  topic = topic;
  primary = primary;
  join_ref = "";
  joined = false;
}

abbrev pub new_join_book : JoinBook
new_join_book = record {
  cells = λ i. new_channel_join "" false;
  allocated = 0;
  by_ref = λ r. none;
  by_topic = λ t. none;
}

abbrev pub store : (ℕ → ChannelJoin) → ℕ → ChannelJoin → ℕ → ChannelJoin
store cells i cj j = if j == i then cj else cells j

-- The join at address `i` waits for a reply on `ref`, and on no earlier ref.
abbrev pub assign : ℕ → String → JoinBook → JoinBook
assign i ref b =
    let cj = b.cells i in
    record b {
      cells = store b.cells i (record cj { join_ref = ref; joined = false });
      by_ref = put (put b.by_ref cj.join_ref none) ref (some i);
    }

abbrev pub allocate : String → Bool → JoinBook → JoinBook
allocate topic primary b = record b {
  cells = store b.cells b.allocated (new_channel_join topic primary);
  allocated = b.allocated + 1;
  by_topic = put b.by_topic topic (some b.allocated);
}

unfoldable pub track : String → Bool → String → JoinBook → JoinBook
track topic primary ref b = elim (b.by_topic topic) [
  | some i ↦ assign i ref b
  | none ↦ assign b.allocated ref (allocate topic primary b)
]

unfoldable pub pending : String → JoinBook → Option ℕ
pending ref b = if str_eq ref "" then none else elim (b.by_ref ref) [
  | none ↦ none
  | some i ↦ if (b.cells i).joined || not (str_eq (b.cells i).join_ref ref) then none else some i
]

unfoldable pub mark_joined : ℕ → JoinBook → JoinBook
mark_joined i b = record b { cells = store b.cells i (record (b.cells i) { joined = true }) }
