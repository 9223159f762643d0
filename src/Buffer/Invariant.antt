-- ===== src/Buffer/Invariant.antt =====
-- The well-formedness of a buffer of src/bufparser.h, over runs of calls.
use pcr_oracle.Common.{
  ℕ, ◌+◌, ◌≤◌, ◌<◌, ◌≡◌, ap, Option, none, some, List, [], ◌∷◌, ◌++◌, arith, length, take, drop,
  length-append, length-take, length-drop,
}
use pcr_oracle.Common.Bytes.{Octets}
use pcr_oracle.Common.Words.{u64_mod}
use pcr_oracle.Buffer.{Buffer, buffer_skip, buffer_seek_read, buffer_get, buffer_put, overwrite}

-- 0 ≤ rpos ≤ wpos ≤ size, and the memory is there.
pub record IsWellFormed (bp : Buffer) : Type 0 where
  pub read_le : bp.rpos ≤ bp.wpos
  pub write_le : bp.wpos ≤ bp.size
  pub fits : bp.size ≤ length bp.octets
  pub word : bp.size < u64_mod

pub length-overwrite :
    (memory : Octets) (pos : ℕ) (src : Octets)
    → pos + length src ≤ length memory
    → length (overwrite memory pos src) ≡ length memory
length-overwrite memory pos src h = omega (
  arith,
  length-append (take pos memory) (src ++ drop (pos + length src) memory),
  length-append src (drop (pos + length src) memory),
  length-take pos memory,
  length-drop (pos + length src) memory,
)

pub buffer_skip-IsWellFormed :
    {bp : Buffer} (count : ℕ) {bp' : Buffer}
    → IsWellFormed bp
    → buffer_skip bp count ≡ some bp'
    → IsWellFormed bp'
unfolding buffer_skip
buffer_skip-IsWellFormed count w h = ground arith

pub buffer_seek_read-IsWellFormed :
    {bp : Buffer} (pos : ℕ) {bp' : Buffer}
    → IsWellFormed bp
    → buffer_seek_read bp pos ≡ some bp'
    → IsWellFormed bp'
unfolding buffer_seek_read
buffer_seek_read-IsWellFormed pos w h = ground arith

pub buffer_get-IsWellFormed :
    {bp : Buffer} (count : ℕ) {bs : Octets} {bp' : Buffer}
    → IsWellFormed bp
    → buffer_get bp count ≡ some (bs, bp')
    → IsWellFormed bp'
unfolding buffer_get
buffer_get-IsWellFormed count w h = ground arith

pub buffer_put-IsWellFormed :
    {bp : Buffer} (src : Octets) {bp' : Buffer}
    → IsWellFormed bp
    → buffer_put bp src ≡ some bp'
    → IsWellFormed bp'
unfolding buffer_put
buffer_put-IsWellFormed {bp} src w h = ground (arith, length-overwrite bp.octets bp.wpos src)

-- What a caller does to one buffer. A call that answers `false` leaves it as it is.
pub data BufferCall : Type 0 where
  skip : ℕ → BufferCall
  seek_read : ℕ → BufferCall
  get : ℕ → BufferCall
  put : Octets → BufferCall

abbrev after : Buffer → Option Buffer → Buffer
after bp none = bp
after bp (some bp') = bp'

abbrev after_get : Buffer → Option (Octets × Buffer) → Buffer
after_get bp none = bp
after_get bp (some (bs, bp')) = bp'

pub run_call : Buffer → BufferCall → Buffer
unfolding buffer_skip buffer_seek_read buffer_get buffer_put
run_call bp (skip n) = after bp (buffer_skip bp n)
run_call bp (seek_read n) = after bp (buffer_seek_read bp n)
run_call bp (get n) = after_get bp (buffer_get bp n)
run_call bp (put src) = after bp (buffer_put bp src)

pub run_calls : Buffer → List BufferCall → Buffer
unfolding run_call
run_calls bp [] = bp
run_calls bp (c ∷ cs) = run_calls (run_call bp c) cs

run_call-IsWellFormed :
    {bp : Buffer} (c : BufferCall) → IsWellFormed bp → IsWellFormed (run_call bp c)
unfolding run_call
run_call-IsWellFormed (skip n) w = ground arith
run_call-IsWellFormed (seek_read n) w = ground arith
run_call-IsWellFormed (get n) w = ground arith
run_call-IsWellFormed {bp} (put src) w = ground (arith, length-overwrite bp.octets bp.wpos src)

-- Whatever calls of skip, seek_read, get and put are made on a well-formed buffer, its positions stay
-- ordered (rpos ≤ wpos ≤ size) and its size stays within its memory.
pub run_calls-IsWellFormed :
    (bp : Buffer) (cs : List BufferCall) → IsWellFormed bp → IsWellFormed (run_calls bp cs)
unfolding run_calls
run_calls-IsWellFormed bp [] w = w
run_calls-IsWellFormed bp (c ∷ cs) w =
    run_calls-IsWellFormed (run_call bp c) cs (run_call-IsWellFormed c w)

-- Every byte that a successful `buffer_get` hands out was read inside the buffer's memory.
pub length-buffer_get :
    {bp : Buffer} (count : ℕ) {bs : Octets} {bp' : Buffer}
    → IsWellFormed bp
    → buffer_get bp count ≡ some (bs, bp')
    → length bs ≡ count
unfolding buffer_get
length-buffer_get {bp} count {bs} w h =
    let bytes : bs ≡ take count (drop bp.rpos bp.octets) = ground arith in
    let room : bp.rpos + count ≤ bp.wpos = ground arith in
    omega (
      arith,
      ap length bytes,
      length-take count (drop bp.rpos bp.octets),
      length-drop bp.rpos bp.octets,
    )
