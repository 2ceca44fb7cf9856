-- ===== src/BitArray/Defs.antt =====
-- bitarray.c: the sliding window of received sequence numbers, an array of NUM_WORDS machine words
-- of WORD_BIT_SIZE bits. The width is a parameter: 32 where `unsigned long` has 32 bits (two
-- words), 64 where it has 64 (one word). Reads and writes out of the array and shifts that C leaves
-- undefined are faults (`none`). An int16_t is its bit pattern below 2 ^ 16.
-- `bit_print`, which only formats the words for debugging, is not modelled.
use batman_adv_userspace.Base.{
  ℕ, zero, suc, ◌+◌, ◌-◌, ◌*◌, ◌/◌, ◌%◌, ◌^◌, bit_and, bit_or, List, [], ◌∷◌, Bool, true, false,
  ◌||◌, ◌&&◌, Option, none, some, ltb, leb, ◌==◌, if◌then◌else◌, ◌>>=◌, get_elem?, set, replicate,
}

-- TQ_LOCAL_WINDOW_SIZE
abbrev pub tq_local_window_size : ℕ
tq_local_window_size = 64

-- The array `TYPE_OF_WORD seq_bits[NUM_WORDS]`, word 0 first.
abbrev pub Words : Type 0
Words = List ℕ

-- A write, which faults out of range.
abbrev pub store : Words → ℕ → ℕ → Option Words
store ws i v = elim (get_elem? ws i) [ none ↦ none | some _ ↦ some (set ws i v) ]

-- Reading the 16-bit pattern as a signed number: below 0?
abbrev pub is_negative : ℕ → Bool
is_negative d = leb (2 ^ 15) d

-- `seq_bits[i]` for an int16_t: an index below 0 is out of the array.
unfoldable pub word_at : Words → ℕ → Option ℕ
word_at ws i = if is_negative i then none else get_elem? ws i

module _ (word_bit_size : ℕ) where
  -- NUM_WORDS
  abbrev pub num_words : ℕ
  num_words = tq_local_window_size / word_bit_size

  unfoldable pub bit_init : Words
  bit_init = replicate num_words 0

  -- `1<<k` is a shift of the 32-bit int 1, converted to a word where it meets one: k = 31 gives the
  -- least int, which is sign-extended, and more than 31 is undefined.
  unfoldable pub one_shl : ℕ → Option ℕ
  one_shl k =
      if ltb k 31 then some (2 ^ k) else if k == 31 then some (2 ^ word_bit_size - 2 ^ 31) else none

  -- `( last_seqno - curr_seqno ) / WORD_BIT_SIZE` in an int16_t: the difference is an int, which is not
  -- reduced, and the division rounds towards 0.
  unfoldable pub word_num_of : ℕ → ℕ → ℕ
  word_num_of last_seqno curr_seqno =
      if ltb last_seqno curr_seqno
      then (2 ^ 16 - (curr_seqno - last_seqno) / word_bit_size % 2 ^ 16) % 2 ^ 16
      else (last_seqno - curr_seqno) / word_bit_size % 2 ^ 16

  -- The remainder, with the sign of the difference.
  unfoldable pub word_offset_of : ℕ → ℕ → ℕ
  word_offset_of last_seqno curr_seqno =
      if ltb last_seqno curr_seqno
      then (2 ^ 16 - (curr_seqno - last_seqno) % word_bit_size) % 2 ^ 16
      else (last_seqno - curr_seqno) % word_bit_size

  unfoldable pub get_bit_status : Words → ℕ → ℕ → Option Bool
  unfolding one_shl word_num_of word_offset_of word_at
  get_bit_status seq_bits last_seqno curr_seqno =
      let diff = (last_seqno + 2 ^ 16 - curr_seqno) % 2 ^ 16 in
      if is_negative diff || leb tq_local_window_size diff then some false else (do
        word ← word_at seq_bits (word_num_of last_seqno curr_seqno)
        mask ← one_shl (word_offset_of last_seqno curr_seqno)
        some (if bit_and word mask == 0 then false else true))

  -- `n` is not negative: a negative one returns at once, as one past the window does.
  unfoldable pub bit_mark : Words → ℕ → Option Words
  unfolding one_shl
  bit_mark seq_bits n = if leb tq_local_window_size n then some seq_bits else (do
    mask ← one_shl (n % word_bit_size)
    word ← get_elem? seq_bits (n / word_bit_size)
    store seq_bits (n / word_bit_size) (bit_or word mask))

  -- The shifts of a word: the left one drops what leaves the word, and one by the whole width is
  -- undefined.
  abbrev pub shl : ℕ → ℕ → ℕ
  shl w k = (w * 2 ^ k) % 2 ^ word_bit_size

  unfoldable pub shr : ℕ → ℕ → Option ℕ
  shr w k = if leb word_bit_size k then none else some (w / 2 ^ k)

  -- The words `i = word_num + rounds` down to `word_num + 1`.
  unfoldable pub shift_words : ℕ → ℕ → ℕ → Words → Option Words
  unfolding shr
  shift_words word_num word_offset zero ws = some ws
  shift_words word_num word_offset (suc rounds) ws = do
    low ← get_elem? ws (suc rounds)
    high ← get_elem? ws rounds
    carried ← shr high (word_bit_size - word_offset)
    ws' ← store ws (word_num + suc rounds) ((shl low word_offset + carried) % 2 ^ word_bit_size)
    shift_words word_num word_offset rounds ws'

  -- The padding loop: the words `n - 1` down to 0.
  unfoldable pub zero_words : ℕ → Words → Option Words
  zero_words zero ws = some ws
  zero_words (suc n) ws = do ws' ← store ws n 0; zero_words n ws'

  -- `n` is not negative, as in `bit_mark`. With `word_num` past the last word the loop makes no
  -- round and stops at `i = NUM_WORDS - 1`: `seq_bits[i - word_num]` is then below the array.
  unfoldable pub bit_shift : Words → ℕ → Option Words
  unfolding shift_words zero_words
  bit_shift seq_bits n =
      let word_offset = n % word_bit_size in
      let word_num = n / word_bit_size in
      if n == 0 then some seq_bits else if leb num_words word_num then none else (do
        ws ← shift_words word_num word_offset (num_words - 1 - word_num) seq_bits
        last ← get_elem? ws 0
        ws' ← store ws word_num (shl last word_offset)
        zero_words word_num ws')

  -- The result is 1 (true) for a new sequence number. `bit_mark(seq_bits, -seq_num_diff)` gets the
  -- distance of a negative difference.
  unfoldable pub bit_get_packet : Words → ℕ → Bool → Option (Bool × Words)
  unfolding bit_mark bit_shift bit_init
  bit_get_packet seq_bits seq_num_diff set_mark =
      if is_negative seq_num_diff && leb (2 ^ 16 - tq_local_window_size) seq_num_diff
      then (do
        ws ← (if set_mark then bit_mark seq_bits (2 ^ 16 - seq_num_diff) else some seq_bits)
        some (false, ws))
      else if is_negative seq_num_diff || ltb tq_local_window_size seq_num_diff
      then (do ws ← (if set_mark then store bit_init 0 1 else some bit_init); some (true, ws))
      else (do
        ws ← bit_shift seq_bits seq_num_diff
        ws' ← (if set_mark then bit_mark ws 0 else some ws)
        some (true, ws'))

-- `while (word) { word &= word-1; hamming++; }` on fuel; `none` means that the fuel ran out.
unfoldable pub kernighan : ℕ → ℕ → ℕ → Option ℕ
kernighan zero word hamming = none
kernighan (suc fuel) word hamming =
    let rest = kernighan fuel (bit_and word (word - 1)) (hamming + 1) in
    if word == 0 then some hamming else rest

-- A round clears one bit, so `word + 1` rounds are enough for any word.
unfoldable pub bit_packet_count_from : ℕ → Words → Option ℕ
unfolding kernighan
bit_packet_count_from hamming [] = some hamming
bit_packet_count_from hamming (word ∷ words) = do
  h ← kernighan (word + 1) word hamming
  bit_packet_count_from h words

unfoldable pub bit_packet_count : Words → Option ℕ
unfolding bit_packet_count_from
bit_packet_count seq_bits = bit_packet_count_from 0 seq_bits
