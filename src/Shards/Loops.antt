-- ===== src/Shards/Loops.antt =====
-- internal/vclpoll/shard_listener.go, lines 30 to 34, 101 to 181 and 196 to 236: the accept loops, the
-- channel that they share, its readers, and the closing of the listener, one channel operation a step.
use vclnet.Base.{
  ℕ, zero, suc, ◌*◌, ◌<◌, ◌≡◌, List, [], ◌∷◌, ◌++◌, Bool, true, false, ◌&&◌, some, get_elem?, set,
  length,
}
use vclnet.Errors.{Error, poll_closed}

-- `shardAcceptResult`, by the public handle or the error.
pub data AcceptResult : Type 0 where
  accepted : ℕ → AcceptResult
  failed : Error → AcceptResult

-- Where an accept loop stands: at its head, in the submitted accept, at the channel with a result,
-- waiting for readiness, or returned.
pub data Loop : Type 0 where
  checking accepting waiting ended : Loop
  holding : AcceptResult → Loop

-- `taken` are the sessions that `registerSession` has registered for the listener. Of these some are
-- `delivered` to callers of `shardedAcceptFullContext`, some `closed` by `closeShardedListener`, and
-- some `dropped` by a loop that returns while it holds them, and some `abandoned`: the accept has run
-- and registered the session, but `submit` takes `<-w.quiesced` and returns `ErrClosed`. `stop` says that `stopCh` is closed, and
-- `drained` that `closeShardedListener` has emptied `acceptC`.
pub record Fan : Type 0 where
  pub loops : List Loop
  pub accept_c : List AcceptResult
  pub capacity : ℕ
  pub stop : Bool
  pub drained : Bool
  pub taken : List ℕ
  pub delivered : List ℕ
  pub closed : List ℕ
  pub dropped : List ℕ
  pub abandoned : List ℕ

abbrev pub moved : ℕ → Loop → Fan → Fan
moved i l s = record s { loops = set s.loops i l }

-- The session of a result is put in front.
abbrev pub with_result : AcceptResult → List ℕ → List ℕ
with_result (accepted h) hs = h ∷ hs
with_result (failed e) hs = hs

-- The submitted accept gives a session, which `registerSession` has registered.
unfoldable pub accept : ℕ → ℕ → Fan → Fan
accept i h s = record (moved i (holding (accepted h)) s) { taken = h ∷ s.taken }

-- It gives a session as well, but its worker quiesces, and `submit` returns `ErrClosed`.
unfoldable pub abandon : ℕ → ℕ → Fan → Fan
abandon i h s = record (moved i (holding (failed poll_closed)) s) {
  taken = h ∷ s.taken;
  abandoned = h ∷ s.abandoned;
}

-- After a send the loop goes on with a session, and returns with an error.
abbrev pub after_send : AcceptResult → Loop
after_send (accepted h) = checking
after_send (failed e) = ended

unfoldable pub send : ℕ → AcceptResult → Fan → Fan
send i r s = record (moved i (after_send r) s) { accept_c = s.accept_c ++ r ∷ [] }

-- `case <-sl.stopCh: return` at the channel.
unfoldable pub drop_result : ℕ → AcceptResult → Fan → Fan
drop_result i r s = record (moved i ended s) { dropped = with_result r s.dropped }

-- `shardedAcceptFullContext` receives from the channel.
unfoldable pub receive : AcceptResult → List AcceptResult → Fan → Fan
receive r rest s = record s { accept_c = rest; delivered = with_result r s.delivered }

abbrev pub close_queued : List AcceptResult → List ℕ → List ℕ
close_queued [] hs = hs
close_queued (r ∷ rs) hs = close_queued rs (with_result r hs)

-- The loop of `closeShardedListener` that empties the channel.
unfoldable pub drain : Fan → Fan
drain s = record s { accept_c = []; closed = close_queued s.accept_c s.closed; drained = true }

abbrev pub has_ended : Loop → Bool
has_ended ended = true
has_ended _ = false

-- `sl.wg.Wait()` returns.
unfoldable pub all_ended : List Loop → Bool
all_ended [] = true
all_ended (l ∷ ls) = has_ended l && all_ended ls

-- At the head a loop returns if the listener is stopped or its worker has quiesced.
pub data Step (s : Fan) : Fan → Type 0 where
  enters :
      (i : ℕ) → get_elem? s.loops i ≡ some checking → s.stop ≡ false → Step s (moved i accepting s)
  returns : (i : ℕ) → get_elem? s.loops i ≡ some checking → Step s (moved i ended s)
  accepts : (i h : ℕ) → get_elem? s.loops i ≡ some accepting → Step s (accept i h s)
  abandons : (i h : ℕ) → get_elem? s.loops i ≡ some accepting → Step s (abandon i h s)
  fails :
      (i : ℕ) (e : Error)
      → get_elem? s.loops i ≡ some accepting
      → Step s (moved i (holding (failed e)) s)
  is_told_again : (i : ℕ) → get_elem? s.loops i ≡ some accepting → Step s (moved i waiting s)
  sends :
      (i : ℕ) (r : AcceptResult)
      → get_elem? s.loops i ≡ some (holding r)
      → length s.accept_c < s.capacity
      → Step s (send i r s)
  drops :
      (i : ℕ) (r : AcceptResult)
      → get_elem? s.loops i ≡ some (holding r)
      → s.stop ≡ true
      → Step s (drop_result i r s)
  wakes : (i : ℕ) → get_elem? s.loops i ≡ some waiting → Step s (moved i checking s)
  gives_up : (i : ℕ) → get_elem? s.loops i ≡ some waiting → Step s (moved i ended s)
  receives :
      (r : AcceptResult) (rest : List AcceptResult)
      → s.accept_c ≡ r ∷ rest
      → Step s (receive r rest s)
  stops : s.stop ≡ false → Step s (record s { stop = true })
  drains : s.stop ≡ true → all_ended s.loops ≡ true → Step s (drain s)

-- `startAcceptLoops`: as many loops as shards, and four places in the channel for each.
abbrev pub heads : ℕ → List Loop
heads zero = []
heads (suc n) = checking ∷ heads n

abbrev pub start_accept_loops : ℕ → Fan
start_accept_loops n = record {
  loops = heads n;
  accept_c = [];
  capacity = n * 4;
  stop = false;
  drained = false;
  taken = [];
  delivered = [];
  closed = [];
  dropped = [];
  abandoned = [];
}

pub data Reach (n : ℕ) : Fan → Type 0 where
  init : Reach n (start_accept_loops n)
  later : {s t : Fan} → Reach n s → Step s t → Reach n t
