-- ===== src/Ssl/Library.antt =====
-- The start and the end of OpenSSL (`_socketxx_openssl_init` in socket++/base_ssl.hpp, of which
-- socket++/base_ssl.cpp has one static object), and the constructors of base_ssl.
use socketxx.Common.{none}
use socketxx.Common.Int.{ℤ}
use socketxx.Ssl.{OpenSsl, SslSocket}

-- The calls that concern the library as a whole.
pub record Library (W : Type 0) : Type 0 where
  pub library_init : W → W
  pub load_error_strings : W → W
  pub err_free_strings : W → W
  pub evp_cleanup : W → W
  pub cleanup_all_ex_data : W → W

module _ {W : Type 0} (c : Library W) where
  -- _socketxx_openssl_init()
  unfoldable openssl_init : W → W
  openssl_init w = c.load_error_strings (c.library_init w)

  -- ~_socketxx_openssl_init()
  unfoldable openssl_exit : W → W
  openssl_exit w = c.cleanup_all_ex_data (c.evp_cleanup (c.err_free_strings w))

-- base_ssl on the descriptor of its base class, without a session
unfoldable new_ssl : (l : OpenSsl) → ℤ → l.os.World → SslSocket l.os.World
new_ssl l fd w = record { fd = fd; ssl_sock = none; ssl_ctx = none; world = w }
