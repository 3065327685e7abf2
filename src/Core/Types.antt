-- ===== src/Core/Types.antt =====
-- include/core/types.hpp: the enumerations and the order that the other parts share.
use tv_webhook_trader.Shared.{ℕ, Text, take, ℤ}

pub data Side : Type 0 where
  buy sell : Side

pub data TradeSide : Type 0 where
  open_side close_side : TradeSide

pub data OrderType : Type 0 where
  market limit post_only : OrderType

pub data TimeInForce : Type 0 where
  gtc ioc fok : TimeInForce

pub data OrderStatus : Type 0 where
  new partially_filled filled cancelled rejected : OrderStatus

-- Symbol(sv): at most 23 bytes are kept.
unfoldable pub fixed_symbol : Text → Text
fixed_symbol s = take 23 s

pub record OrderRequest (F : Type 0) : Type 0 where
  pub symbol : Text
  pub side : Side
  pub trade_side : TradeSide
  pub order_type : OrderType
  pub tif : TimeInForce
  pub price : F
  pub quantity : F
  pub client_order_id : ℕ
  pub created_at : ℕ
  pub leverage : ℤ
  pub take_profit : F
  pub stop_loss : F
  pub product_type : Text
  pub margin_coin : Text
  pub comment : Text

pub record OrderResponse (F : Type 0) : Type 0 where
  pub client_order_id : ℕ
  pub exchange_order_id : ℕ
  pub status : OrderStatus
  pub filled_price : F
  pub filled_qty : F
  pub updated_at : ℕ
  pub error_code : ℤ
  pub error_msg : Text
