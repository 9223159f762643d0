-- ===== src/Buffer/Tests.antt =====
-- Runs of the buffer, and the theorems at concrete inputs.
use pcr_oracle.Common.{◌≡◌, refl, some, List, [], ◌∷◌, arith, replicate}
use pcr_oracle.Common.Words.{le_value, le_octets}
use pcr_oracle.Buffer.{Buffer, buffer_init_read, buffer_get, buffer_put, buffer_get_u32le}
use pcr_oracle.Buffer.Invariant.{
  IsWellFormed, run_calls, run_calls-IsWellFormed, skip, seek_read, get, put,
}
use pcr_oracle.Buffer.Contents.{contents}
use pcr_oracle.Buffer.RoundTrip.{
  Word, u8, u16, u32, get_words, put_words, put_width, values, get_words-put_words,
}

abbrev empty16 : Buffer
empty16 = record { rpos = 0; wpos = 0; size = 16; octets = replicate 16 0 }

empty16-IsWellFormed : IsWellFormed empty16
empty16-IsWellFormed = omega arith

run_calls-IsWellFormed_example :
    IsWellFormed (run_calls empty16 (put (1 ∷ 2 ∷ 3 ∷ []) ∷ get 2 ∷ skip 7 ∷ seek_read 0 ∷ []))
run_calls-IsWellFormed_example = run_calls-IsWellFormed empty16 _ empty16-IsWellFormed

get_u32_runs :
    buffer_get_u32le (buffer_init_read (0x78 ∷ 0x56 ∷ 0x34 ∷ 0x12 ∷ []) 4)
    ≡ some (
      0x12345678,
      record { rpos = 4; wpos = 4; size = 4; octets = 0x78 ∷ 0x56 ∷ 0x34 ∷ 0x12 ∷ [] },
    )
unfolding buffer_get_u32le buffer_get buffer_init_read le_value
get_u32_runs = refl

abbrev some_words : List Word
some_words =
    record { width = u8; value = 0x7f }
    ∷ record { width = u16; value = 0xbeef }
    ∷ record { width = u32; value = 0x12345678 }
    ∷ []

abbrev written : Buffer
written = record {
  rpos = 0;
  wpos = 7;
  size = 16;
  octets = 0x7f ∷ 0xef ∷ 0xbe ∷ 0x78 ∷ 0x56 ∷ 0x34 ∷ 0x12 ∷ replicate 9 0;
}

put_words_runs : put_words empty16 some_words ≡ some written
unfolding put_words put_width buffer_put le_octets
put_words_runs = refl

get_words-put_words_example :
    (bp'' : Buffer) × (get_words written some_words ≡ some (values some_words, bp''))
    × (contents bp'' ≡ [])
get_words-put_words_example =
    get_words-put_words some_words empty16 written empty16-IsWellFormed (omega arith) refl
      put_words_runs
