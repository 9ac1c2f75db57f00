-- ===== src/Task/Host.antt =====
-- The hosts that the tasks give to `sync_client`, and the address that `reset_socket` of
-- Include/http/hpp/http_client.hpp makes of them.
use hzrobot.Prelude.{
  Bool, true, false, ◌||◌, ◌==◌, if◌then◌else◌, [], ◌∷◌, ◌++◌, ◌≡◌, ◌≢◌, refl, sym, ◌∙◌, arith,
  Bytes, append_assoc, codes,
}

-- `find(":") != npos`
unfoldable pub has_colon : Bytes → Bool
has_colon [] = false
has_colon (c ∷ cs) = c == b':' || has_colon cs

-- `if (addr.find(":") == npos) addr += ":80"`
unfoldable pub reset_socket_addr : Bytes → Bytes
reset_socket_addr host = if has_colon host then host else host ++ codes ":80"

-- `set_host(ea_ip + ":" + ea_port)` in `PhotoTask::execute`.
unfoldable pub photo_host : Bytes → Bytes → Bytes
photo_host ea_ip ea_port = ea_ip ++ (b':' ∷ ea_port)

-- `set_host(ea_ip + ea_port)` in `TaskBase::execute_after`.
unfoldable pub continue_host : Bytes → Bytes → Bytes
continue_host ea_ip ea_port = ea_ip ++ ea_port

has_colon-append : (xs ys : Bytes) → has_colon (xs ++ ys) ≡ has_colon xs || has_colon ys
unfolding has_colon
has_colon-append [] ys = refl
has_colon-append (x ∷ xs) ys = ground (arith, has_colon-append xs ys)

append_cancel : (xs ys zs : Bytes) → xs ++ ys ≡ xs ++ zs → ys ≡ zs
append_cancel [] ys zs e = e
append_cancel (x ∷ xs) ys zs e = append_cancel xs ys zs (ground arith)

port_differs : (port : Bytes) → has_colon port ≡ false → port ++ codes ":80" ≢ b':' ∷ port
unfolding has_colon
port_differs [] h e = ground arith
port_differs (c ∷ port) h e = ground arith

-- For an address and a port without a colon, `execute` connects to `ip:port`, and
-- `execute_after` connects to another address: to port 80 of the two texts run together.
continue_addr :
    (ea_ip ea_port : Bytes)
    → has_colon ea_ip ≡ false
    → has_colon ea_port ≡ false
    → (reset_socket_addr (photo_host ea_ip ea_port) ≡ ea_ip ++ (b':' ∷ ea_port))
      × (reset_socket_addr (continue_host ea_ip ea_port) ≡ (ea_ip ++ ea_port) ++ codes ":80")
      × (reset_socket_addr (continue_host ea_ip ea_port)
          ≢ reset_socket_addr (photo_host ea_ip ea_port))
unfolding reset_socket_addr photo_host continue_host
continue_addr ip port hi hp =
    let first : has_colon (ip ++ (b':' ∷ port)) ≡ true =
      has_colon-append ip (b':' ∷ port) ∙ unfold has_colon in ground arith in
    let second : has_colon (ip ++ port) ≡ false = has_colon-append ip port ∙ ground arith in
    rw (first, second)
      (
        refl,
        refl,
        λ e. port_differs port hp (append_cancel ip _ _ (sym (append_assoc ip port _) ∙ e)),
      )
