-- ===== src/Fuzz/Tunnel/Server.antt =====
-- The server's channel carries frames unchanged, and is cleared after each; an error of `read`
-- makes it write beyond its buffer.
use fuzzing_rdma.Base.{
  pos, ℕ, ◌-◌, ◌^◌, ◌≤◌, ◌≡◌, refl, none, some, List, [], ◌∷◌, ◌++◌, map, length, take, drop, zeros,
  overwrite_lem, clear_lem, fill_short, length-zeros, zeros-append-drop, take-append, drop-append,
  length-append-drop, le→leb, arith,
}
use fuzzing_rdma.Fuzz.Tunnel.{
  max_eth_len, cleared, error, frame, read, write, server_step, server_run,
}

-- Every frame fits the buffer.
abbrev pub AllFit : List (List ℕ) → Type 0
AllFit [] = Unit {0}
AllFit (x ∷ xs) = (length x ≤ max_eth_len) × AllFit xs

-- What `read` puts into a buffer that holds the frame.
pub read_frame :
    (buffer xs : List ℕ)
    → length xs ≤ length buffer
    → read buffer (frame xs) ≡ some (xs ++ drop (length xs) buffer, pos (length xs))
unfolding read
read_frame buffer xs h = rw (overwrite_lem buffer xs h)

-- What `write` is handed from a buffer that holds the frame.
pub write_lem :
    (buffer : List ℕ) (n : ℕ) → n ≤ length buffer → write buffer (pos n) ≡ some (take n buffer)
unfolding write
write_lem buffer n h = rw (le→leb n (length buffer) h)

-- The round on a clear buffer of any size that holds the frame.
pub server_step_frame :
    (n : ℕ) (xs : List ℕ)
    → length xs ≤ n
    → server_step (zeros n) (frame xs) ≡ some (zeros n, some xs)
unfolding server_step
server_step_frame n xs h =
    rw
      (
        read_frame (zeros n) xs fits,
        write_lem read_buffer (length xs) room,
        clear_lem read_buffer (length xs) room,
        take-append xs (drop (length xs) (zeros n)),
        drop-append xs (drop (length xs) (zeros n)),
        zeros-append-drop (length xs) n h,
      )
      refl
  where
    fits : length xs ≤ length (zeros n)
    fits = rw (length-zeros n) h

    read_buffer : List ℕ
    read_buffer = xs ++ drop (length xs) (zeros n)

    room : length xs ≤ length read_buffer
    room = rw (length-append-drop xs (zeros n) fits) fits

-- From a clear buffer, every frame that fits is written as it was read, and the buffer is clear
-- again at the end.
pub server_run_transparent :
    (xs : List (List ℕ))
    → AllFit xs
    → server_run cleared (map frame xs) ≡ some (cleared, map some xs)
unfolding server_run
server_run_transparent [] h = refl
server_run_transparent (x ∷ xs) h =
    rw (server_step_frame max_eth_len x h.0, server_run_transparent xs h.1) refl

-- An error of `read` makes the `memset` of the round run beyond the buffer, of whatever content.
pub server_step_error :
    (buffer : List ℕ) → length buffer ≡ max_eth_len → server_step buffer error ≡ none
unfolding server_step read
server_step_error buffer h = rw (fill_short buffer (2 ^ 64 - 1) 0 (omega arith)) refl
