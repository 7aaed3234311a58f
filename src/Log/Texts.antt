-- ===== src/Log/Texts.antt =====
-- The texts of the messages of core/src/bus.c and core/src/cart.c.
use agoge.Prelude.{ℕ, ◌≤◌, ◌≡◌, refl, List, [], ◌∷◌, ◌++◌, length, length-append, arith}
use agoge.Ctx.{Ctx, lvl_warn, lvl_err, lvl_trace, ch_bus, ch_cart}
use agoge.Step.{ok}
use agoge.Printf.{num, text, codes, vsprintf, hex_text, dec_text, hex_text-le, dec_text-le}
use agoge.Log.{log_message}
use agoge.Log.Fits.{logged, with_log, log_message_lem}

unfoldable pub read_text : ℕ → List ℕ
unfolding hex_text
read_text addr =
    codes "[warn] [bus] Unknown memory read: $" ++ (hex_text 4 addr ++ codes ", returning $FF")

unfoldable pub write_text : ℕ → ℕ → List ℕ
unfolding hex_text
write_text addr v =
    codes "[warn] [bus] Unknown memory write: $"
    ++ (hex_text 4 addr ++ (codes " <- $" ++ (hex_text 2 v ++ codes "; ignoring")))

unfoldable pub line_text : List ℕ → List ℕ
line_text line = codes "[trace] [bus] Serial output: " ++ (line ++ [])

unfoldable pub size_text : ℕ → List ℕ
unfolding dec_text
size_text data_size =
    codes "[error] [cart] failed to set cart: bad size - got size " ++ (dec_text data_size ++ [])

module _ (s : Ctx) where
  pub log-read_text :
      (addr : ℕ)
      → log_message lvl_warn ch_bus "Unknown memory read: $%04X, returning $FF" (num addr ∷ []) s
        ≡ ok (tt, with_log s (logged lvl_warn ch_bus (read_text addr) s.log))
  unfolding vsprintf read_text
  log-read_text addr =
      log_message_lem lvl_warn ch_bus "Unknown memory read: $%04X, returning $FF" (num addr ∷ [])
        "[warn] " (codes "Unknown memory read: $" ++ (hex_text 4 addr ++ codes ", returning $FF")) s
        refl refl
        (omega
          (arith, length-append (hex_text 4 addr) (codes ", returning $FF"), hex_text-le 4 addr))

  pub log-write_text :
      (addr v : ℕ)
      → log_message lvl_warn ch_bus "Unknown memory write: $%04X <- $%02X; ignoring"
          (num addr ∷ num v ∷ [])
          s
        ≡ ok (tt, with_log s (logged lvl_warn ch_bus (write_text addr v) s.log))
  unfolding vsprintf write_text
  log-write_text addr v =
      log_message_lem lvl_warn ch_bus "Unknown memory write: $%04X <- $%02X; ignoring"
        (num addr ∷ num v ∷ []) "[warn] "
        (codes "Unknown memory write: $"
          ++ (hex_text 4 addr ++ (codes " <- $" ++ (hex_text 2 v ++ codes "; ignoring"))))
        s refl refl
        (omega (
          arith,
          length-append (hex_text 4 addr) (codes " <- $" ++ (hex_text 2 v ++ codes "; ignoring")),
          length-append (hex_text 2 v) (codes "; ignoring"),
          hex_text-le 4 addr,
          hex_text-le 2 v,
        ))

  pub log-line_text :
      (line : List ℕ)
      → length line ≤ 128
      → log_message lvl_trace ch_bus "Serial output: %s" (text line ∷ []) s
        ≡ ok (tt, with_log s (logged lvl_trace ch_bus (line_text line) s.log))
  unfolding vsprintf line_text
  log-line_text line short =
      log_message_lem lvl_trace ch_bus "Serial output: %s" (text line ∷ []) "[trace] "
        (codes "Serial output: " ++ (line ++ [])) s refl refl (omega (arith, length-append line []))

  pub log-size_text :
      (data_size : ℕ)
      → log_message lvl_err ch_cart "failed to set cart: bad size - got size %zu"
          (num data_size ∷ [])
          s
        ≡ ok (tt, with_log s (logged lvl_err ch_cart (size_text data_size) s.log))
  unfolding vsprintf size_text
  log-size_text data_size =
      log_message_lem lvl_err ch_cart "failed to set cart: bad size - got size %zu"
        (num data_size ∷ []) "[error] "
        (codes "failed to set cart: bad size - got size " ++ (dec_text data_size ++ [])) s refl refl
        (omega (arith, length-append (dec_text data_size) [], dec_text-le data_size))

-- For any address, value and size, and a line of at most 128 bytes, each message of the bus and the
-- cartridge is printed to a text that fits the 512 bytes of the handler's buffer: logging returns, and
-- where its level and channel are enabled the callback gets the prefixes and the whole text.
pub log_message-fits :
    (addr v data_size : ℕ) (line : List ℕ) (s : Ctx)
    → length line ≤ 128
    → (log_message lvl_warn ch_bus "Unknown memory read: $%04X, returning $FF" (num addr ∷ []) s
        ≡ ok (tt, with_log s (logged lvl_warn ch_bus (read_text addr) s.log)))
      × (log_message lvl_warn ch_bus "Unknown memory write: $%04X <- $%02X; ignoring"
            (num addr ∷ num v ∷ [])
            s
          ≡ ok (tt, with_log s (logged lvl_warn ch_bus (write_text addr v) s.log)))
      × (log_message lvl_trace ch_bus "Serial output: %s" (text line ∷ []) s
          ≡ ok (tt, with_log s (logged lvl_trace ch_bus (line_text line) s.log)))
      × (log_message lvl_err ch_cart "failed to set cart: bad size - got size %zu"
            (num data_size ∷ [])
            s
          ≡ ok (tt, with_log s (logged lvl_err ch_cart (size_text data_size) s.log)))
log_message-fits addr v data_size line s short = (
  log-read_text s addr,
  log-write_text s addr v,
  log-line_text s line short,
  log-size_text s data_size,
)
