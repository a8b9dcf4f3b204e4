-- ===== src/ScrollWindow.antt =====
-- scroll_window.hpp: windows over the latest values of a sequence, in a fixed array and in a vector.
pub mod Array
pub mod Vector
