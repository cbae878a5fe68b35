-- ===== src/External/Link.antt =====
-- A network whose peer runs a server, as the laws of `nerw_core`'s client over QUIC.
use nerw_rpc.Prelude.{ℕ, ◌≤◌, List, [], ◌∷◌, ◌++◌, ◌≡◌, Bool, true, length, Option, some}
use nerw_rpc.Result.{ok}
use nerw_rpc.External.Network.{Network}
use nerw_rpc.External.Quic.{RecvStream, RecvLaws, SendStream, SendLaws}

-- A substream as its client sees it.
pub data Phase : Type 0 where
  opened : Phase
  sent : List ℕ → Phase
  finished : List ℕ → Phase
  closed : Phase

-- `serve` is what the peer's server does with the two halves of a substream that it accepts, and
-- with the state of its application. A substream opens; what is written and finished arrives whole;
-- the client reads what the server wrote, if the limit allows. Between the calls the state of the
-- application stays.
pub record Link {N R S W : Type 0} (net : Network N) {recv : RecvStream R} (recvs : RecvLaws recv)
    {send : SendStream S} (sends : SendLaws send) (serve : R → S → W → Option (S × W))
    (peer alpn : List ℕ) : Type 0 where
  pub app : N → W
  pub phase : net.Stream → N → Phase
  pub receiving : List ℕ → R
  pub sending : S
  pub receiving-pending : (frame : List ℕ) → recvs.pending (receiving frame) ≡ frame
  pub sending-written : sends.written sending ≡ []
  pub sending-open : sends.is_open sending ≡ true
  pub open-opened :
      (n : N)
      → (stream : net.Stream) × (m : N) × (net.open_substream peer alpn n ≡ (ok stream, m))
        × (phase stream m ≡ opened)
        × (app m ≡ app n)
  pub write_all-sent :
      (stream : net.Stream) (frame : List ℕ) (n : N)
      → phase stream n ≡ opened
      → (m : N) × ((net.send stream).write_all frame n ≡ (ok tt, m))
        × (phase stream m ≡ sent frame)
        × (app m ≡ app n)
  pub finish-finished :
      (stream : net.Stream) (frame : List ℕ) (n : N)
      → phase stream n ≡ sent frame
      → (m : N) × ((net.send stream).finish n ≡ (ok tt, m))
        × (phase stream m ≡ finished frame)
        × (app m ≡ app n)
  pub read_to_end-served :
      (stream : net.Stream) (frame : List ℕ) (limit : ℕ) (n : N) (t : S) (w : W)
      → phase stream n ≡ finished frame
      → serve (receiving frame) sending (app n) ≡ some (t, w)
      → length (sends.written t) ≤ limit
      → (m : N) × ((net.recv stream).read_to_end limit n ≡ (ok (sends.written t), m)) × (app m ≡ w)

-- The same for a substream that stays open both ways. `answer` is what the server does with its
-- sending half at once when the frame that opens the substream, with its first byte `opening`,
-- arrives. The client can read what the server wrote, and later more.
pub record StreamLink {N R S : Type 0} (net : Network N) {recv : RecvStream R}
    (recvs : RecvLaws recv) {send : SendStream S} (sends : SendLaws send) (answer : R → S → S)
    (opening : ℕ) (peer alpn : List ℕ) : Type 0 where
  pub is_fresh : net.Stream → N → Bool
  pub incoming : (stream : net.Stream) → RecvLaws (net.recv stream)
  pub receiving : List ℕ → R
  pub sending : S
  pub receiving-pending : (frame : List ℕ) → recvs.pending (receiving frame) ≡ frame
  pub sending-written : sends.written sending ≡ []
  pub sending-open : sends.is_open sending ≡ true
  pub open-fresh :
      (n : N)
      → (stream : net.Stream) × (m : N) × (net.open_substream peer alpn n ≡ (ok stream, m))
        × (is_fresh stream m ≡ true)
  pub write_all-answered :
      (stream : net.Stream) (frame : List ℕ) (n : N)
      → is_fresh stream n ≡ true
      → (later : List ℕ) × (m : N) × ((net.send stream).write_all (opening ∷ frame) n ≡ (ok tt, m))
        × ((incoming stream).pending m ≡ sends.written (answer (receiving frame) sending) ++ later)
