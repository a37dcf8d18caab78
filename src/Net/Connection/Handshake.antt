-- ===== src/Net/Connection/Handshake.antt =====
-- The reading of headers: bounds of the body, and the index into the server's name.
use otx.Prelude.{ℕ, ◌+◌, ◌%◌, ◌^◌, ◌<◌, ◌≡◌, Bool, true, arith}
use otx.Net.Message.{max_size, length_header, at_body}
use otx.Net.Connection.{
  accept, parse_size, parse_name_byte, parse_name_start, parse_name, counted, parse_header,
  Connection, Request, Config, read_body,
}

-- A body that is asked for is not empty, is the one that the header announces, and fits the buffer
-- behind the header.
pub record BodyFits (r : Connection × Request) : Type 0 where
  pub fits :
      (n : ℕ)
      → r.1 ≡ read_body n
      → (0 < n)
        × (n + 2 < max_size)
        × (r.0.msg.position ≡ 2)
        × (r.0.msg.length ≡ n + 2)
        × (length_header r.0.msg ≡ n)

accept-BodyFits : (c : Connection) → BodyFits (accept c)
unfolding accept
accept-BodyFits c = record { fits = λ n e. ground arith }

parse_size-BodyFits : (now : ℕ) (c : Connection) → BodyFits (parse_size now c)
unfolding parse_size at_body length_header
parse_size-BodyFits now c = record { fits = λ n e. ground arith }

parse_name_byte-BodyFits : (cfg : Config) (c : Connection) → BodyFits (parse_name_byte cfg c)
unfolding parse_name_byte
parse_name_byte-BodyFits cfg c = record {
  fits = λ n e. ground (
    arith,
    (accept-BodyFits c).fits n,
    (accept-BodyFits (record c { received_last_char = true })).fits n,
  );
}

parse_name_start-BodyFits : (cfg : Config) (c : Connection) → BodyFits (parse_name_start cfg c)
unfolding parse_name_start
parse_name_start-BodyFits cfg c = record {
  fits = λ n e.
      ground
        (arith, (accept-BodyFits (record c { received_name = true; server_name_time = 1 })).fits n);
}

parse_name-BodyFits : (cfg : Config) (now : ℕ) (c : Connection) → BodyFits (parse_name cfg now c)
unfolding parse_name
parse_name-BodyFits cfg now c = record {
  fits = λ n e. ground (
    arith,
    (parse_size-BodyFits now c).fits n,
    (parse_size-BodyFits now (record c { received_last_char = true })).fits n,
    (parse_name_start-BodyFits cfg c).fits n,
    (parse_name_byte-BodyFits cfg
          (record c { server_name_time = (c.server_name_time + 1) % 2 ^ 32 })).fits
        n,
  );
}

-- Whatever has arrived and whatever the state: a header makes the connection ask for a body only if
-- the body is not empty, has the length that the header announces, and fits in the buffer behind
-- the two header bytes; the cursor then stands at the body and the message's length counts the body
-- and its header.
pub parse_header-BodyFits :
    (cfg : Config) (now : ℕ) (error : Bool) (c : Connection)
    → BodyFits (parse_header cfg now error c)
unfolding parse_header
parse_header-BodyFits cfg now error c = record {
  fits = λ n e. ground (arith, (parse_name-BodyFits cfg now (counted c)).fits n);
}
